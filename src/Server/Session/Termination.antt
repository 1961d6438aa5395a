-- ===== src/Server/Session/Termination.antt =====
-- A session ends: every round takes a header from the stream. What holds when it has ended.
use mobile_chatting_app.Common.{
  ℕ, zero, suc, ◌+◌, ◌≤◌, ◌<◌, ◌≡◌, ◌≢◌, refl, List, none, some, Option-cases, ◌⊎◌, inl, inr,
  length, length-append, arith,
}
use mobile_chatting_app.Common.Bytes.{Bytes}
use mobile_chatting_app.Wire.Header.{Header, read_header}
use mobile_chatting_app.Wire.Stream.{recv_all}
use mobile_chatting_app.Wire.Stream.Frames.{flat}
use mobile_chatting_app.Wire.Stream.Receive.{recv_all_sound}
use mobile_chatting_app.Server.Protocol.{header_size}
use mobile_chatting_app.Server.Database.{Database}
use mobile_chatting_app.Server.World.{World}
use mobile_chatting_app.Server.Session.{
  Round, next, stop, crash, read_request, answer, round, serve,
}

module _ {D : Type 0} (db : Database D) where
  -- Handling a request reads nothing more.
  answer-next :
      (fd millis uid : ℕ) (h : Header) (payload : Bytes) (input : List Bytes) (w : World D)
      (uid' : ℕ) (input' : List Bytes) (w' : World D)
      → answer db fd millis uid h payload input w ≡ next uid' input' w'
      → input' ≡ input
  unfolding answer
  answer-next fd millis uid h payload input w uid' input' w' e = ground arith

  read_request-flat :
      (h : Header) (input input' : List Bytes) (payload : Bytes)
      → read_request db h input ≡ some (payload, input')
      → length (flat input') ≤ length (flat input)
  unfolding read_request
  read_request-flat h input input' payload e =
      ground
        (arith, recv_all_sound h.length input input' payload, length-append payload (flat input'))

  -- A round that goes on has taken the 32 bytes of a header.
  round-next :
      (fd millis uid : ℕ) (input : List Bytes) (w : World D) (uid' : ℕ) (input' : List Bytes)
      (w' : World D)
      → round db fd millis uid input w ≡ next uid' input' w'
      → length (flat input') + 32 ≤ length (flat input)
  unfolding round
  round-next fd millis uid input w uid' input' w' e =
      elim (Option-cases (recv_all header_size input)) [
        | inl closed ↦ ground arith
        | inr ((buf, rest), got) ↦ elim (Option-cases (read_request db (read_header buf) rest)) [
          | inl cut ↦ ground arith
          | inr ((payload, rest'), more) ↦ ground (
            arith,
            answer-next fd millis uid (read_header buf) payload rest' w uid' input' w',
            recv_all_sound header_size input rest buf got,
            length-append buf (flat rest),
            read_request-flat (read_header buf) rest rest' payload more,
          )
        ]
      ]

  Round-cases :
      (r : Round D)
      → ((uid : ℕ) × (input : List Bytes) × (w : World D) × (r ≡ next uid input w))
        ⊎ ((uid : ℕ) × (w : World D) × (r ≡ stop uid w))
        ⊎ (r ≡ crash)
  Round-cases (next uid input w) = inl (uid, input, w, refl)
  Round-cases (stop uid w) = inr (inl (uid, w, refl))
  Round-cases crash = inr (inr refl)

  -- A session ends, whatever the client sends: more rounds than the stream has bytes are enough.
  pub serve-ne-none :
      (fuel fd : ℕ) (millis : ℕ → ℕ) (uid : ℕ) (input : List Bytes) (w : World D)
      → length (flat input) < fuel
      → serve db fuel fd millis uid input w ≢ none
  unfolding serve
  serve-ne-none zero fd millis uid input w h = elim h [ ]
  serve-ne-none (suc fuel) fd millis uid input w h =
      elim (Round-cases (round db fd (millis fuel) uid input w)) [
        | inl (uid', input', w', e) ↦
            rw (e, serve)
              (serve-ne-none fuel fd millis uid' input' w'
                (omega (arith, round-next fd (millis fuel) uid input w uid' input' w' e)))
        | inr (inl (uid', w', e)) ↦ rw (e, serve) (λ x. cc)
        | inr (inr e) ↦ rw (e, serve) (λ x. cc)
      ]
