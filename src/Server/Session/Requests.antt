-- ===== src/Server/Session/Requests.antt =====
-- A session of `handle_client` (server-cpp/src/message_handler.cpp) as its client sees it: requests made
-- with `createMessage` (app/src/main/cpp/protocol_handler.cpp), one after the other.
use mobile_chatting_app.Common.{
  ℕ, zero, suc, ◌-◌, ◌/◌, ◌%◌, ◌^◌, ◌<◌, ◌≡◌, refl, ap, ◌∙◌, Bool, true, false, ◌==◌, ltb, List, [],
  ◌∷◌, ◌++◌, append_assoc, map, length, replicate, Option, none, some, if◌then◌else◌, All, arith,
}
use mobile_chatting_app.Common.Bytes.{Bytes}
use mobile_chatting_app.Wire.Word.{mem32, htonl, network_round_trip, mem32_sum, htonl-htonl}
use mobile_chatting_app.Wire.Header.{Header, read_header}
use mobile_chatting_app.Wire.Client.{mem64, htonll, create_message}
use mobile_chatting_app.Wire.Client.RoundTrip.{htonll_high, htonll_low, htonll-lt, htonl-zero}
use mobile_chatting_app.Wire.Packet.{Packet, Fits, small_mod}
use mobile_chatting_app.Wire.Stream.{recv_all}
use mobile_chatting_app.Wire.Stream.Frames.{flat}
use mobile_chatting_app.Wire.Stream.Receive.{NonEmpty, recv_all_lem}
use mobile_chatting_app.Server.Protocol.{magic, version, logout}
use mobile_chatting_app.Server.Database.{Database}
use mobile_chatting_app.Server.World.{World, Result, ok, fault, Context}
use mobile_chatting_app.Server.Handlers.Account.{cleanup}
use mobile_chatting_app.Server.Session.{
  Round, next, stop, crash, handle, read_request, answer, round, serve,
}

-- The bytes that the client makes of a message.
abbrev pub made : Packet → Bytes
made p = create_message p.type p.payload p.user_id p.ts

abbrev client_header : ℕ → ℕ → ℕ → ℕ → Bytes
client_header type len user_id ts =
    mem32 (htonl magic)
    ++ (version
        ∷ type
        ∷ (mem32 (htonl len)
            ++ (mem64 (htonll ts) ++ (mem32 (htonl user_id) ++ (mem32 0 ++ replicate 6 0)))))

abbrev header_of : Packet → Header
header_of p = record {
  magic = magic;
  version = version;
  type = p.type;
  length = length p.payload;
  ts = p.ts;
  sender_user_id = p.user_id;
  checksum = 0;
}

read_header-client_header :
    (p : Packet)
    → Fits p
    → read_header (client_header p.type (length p.payload) p.user_id p.ts) ≡ header_of p
unfolding read_header
read_header-client_header p (hl, hu, ht) = ground (
  arith,
  network_round_trip magic,
  network_round_trip (length p.payload),
  network_round_trip p.user_id,
  mem32_sum (htonll p.ts % 2 ^ 32),
  mem32_sum (htonll p.ts / 2 ^ 32),
  htonll-lt p.ts,
  htonll_high p.ts,
  htonll_low p.ts,
  htonl-htonl (p.ts / 2 ^ 32),
  htonl-htonl (p.ts % 2 ^ 32),
  htonl-zero,
)

made-eq :
    (p : Packet)
    → Fits p
    → made p ≡ client_header p.type (length p.payload) p.user_id p.ts ++ p.payload
unfolding create_message
made-eq p h =
    ap (λ n. client_header p.type n p.user_id p.ts ++ p.payload) (small_mod (length p.payload) h.0)

recv_all-nil :
    (pieces : List Bytes) → All NonEmpty pieces → flat pieces ≡ [] → recv_all 32 pieces ≡ none
unfolding recv_all
recv_all-nil [] h e = refl
recv_all-nil ([] ∷ ps) (h, hs) e = absurd (h refl)
recv_all-nil ((c ∷ p) ∷ ps) h e = cc

module _ {D : Type 0} (db : Database D) (fd : ℕ) (millis : ℕ → ℕ) where
  -- What a request is handled with.
  abbrev context_of : ℕ → ℕ → Packet → Context
  context_of now uid p = record {
    fd = fd;
    current_user_id = uid;
    requester_id = if p.user_id == 0 then uid else p.user_id;
    seconds = now / 1000;
    millis = now;
  }

  -- The session as a list of requests, without bytes: each is handled with what the one before has left,
  -- until LOGOUT or the end; `none` is the crash of the server. The clock is that of `serve`.
  unfoldable pub outcome : ℕ → List Packet → ℕ → World D → Option (World D)
  outcome n [] uid w = some (cleanup uid w)
  outcome n (p ∷ ps) uid w =
      elim (handle db (context_of (millis (n - 1)) uid p) p.type p.payload w) [
        | fault ↦ none
        | ok uid' w' ↦
            if p.type == logout then some (cleanup uid' w') else outcome (n - 1) ps uid' w'
      ]

  read_payload-Reads :
      (p : Packet) (pieces : List Bytes) (rest : Bytes)
      → All NonEmpty pieces
      → flat pieces ≡ p.payload ++ rest
      → (left : List Bytes) × (read_request db (header_of p) pieces ≡ some (p.payload, left))
        × (flat left ≡ rest)
        × All NonEmpty left
  unfolding read_request
  read_payload-Reads p pieces rest h e = go p.payload e
    where
      go :
          (payload : Bytes)
          → flat pieces ≡ payload ++ rest
          → (left : List Bytes) × ((if ltb 0 (length payload)
                then recv_all (length payload) pieces
                else some ([], pieces))
              ≡ some (payload, left))
            × (flat left ≡ rest)
            × All NonEmpty left
      go [] e = (pieces, refl, e, h)
      go (c ∷ cs) e =
          let (left, read, behind, full) = recv_all_lem pieces (c ∷ cs) rest h e in
          (left, ground (arith, read), behind, full)

  round_of :
      (now uid : ℕ) (header payload : Bytes) (pieces left left' : List Bytes) (w : World D)
      → recv_all 32 pieces ≡ some (header, left)
      → (read_header header).magic ≡ magic
      → (read_header header).version ≡ version
      → read_request db (read_header header) left ≡ some (payload, left')
      → round db fd now uid pieces w ≡ answer db fd now uid (read_header header) payload left' w
  unfolding round
  round_of now uid header payload pieces left left' w r m v q = ground (arith, r, m, v, q)

  -- A round on the bytes of a request handles this request, and leaves the bytes behind it.
  round-made :
      (now uid : ℕ) (p : Packet) (pieces : List Bytes) (rest : Bytes) (w : World D)
      → Fits p
      → All NonEmpty pieces
      → flat pieces ≡ made p ++ rest
      → (left : List Bytes) × (round db fd now uid pieces w
          ≡ answer db fd now uid (header_of p) p.payload left w)
        × (flat left ≡ rest)
        × All NonEmpty left
  round-made now uid p pieces rest w fits h e =
      let header = client_header p.type (length p.payload) p.user_id p.ts in
      let same = read_header-client_header p fits in
      let (rest1, read, behind, full) =
        recv_all_lem pieces header (p.payload ++ rest) h
          (e ∙ ap (λ t. t ++ rest) (made-eq p fits) ∙ append_assoc header p.payload rest) in
      let (left, more, after, full1) = read_payload-Reads p rest1 rest full behind in
      (
        left,
        round_of now uid header p.payload pieces rest1 left w read (ap (λ h. h.magic) same)
              (ap (λ h. h.version) same) (ap (λ h. read_request db h rest1) same ∙ more)
            ∙ ap (λ h. answer db fd now uid h p.payload left w) same,
        after,
        full1,
      )

  -- What follows a round is the rest of the session.
  followed :
      (f : ℕ) (last : Bool) (left : List Bytes) (r : Result D ℕ)
      (then_on : ℕ → World D → Option (World D))
      → ((uid : ℕ) (w : World D) → serve db f fd millis uid left w ≡ some (then_on uid w))
      → elim (elim r as (λ _. Round D) [
        | fault ↦ crash
        | ok uid' w' ↦ if last then stop uid' w' else next uid' left w'
      ]) [
        | crash ↦ some none
        | stop uid' w' ↦ some (some (cleanup uid' w'))
        | next uid' input' w' ↦ serve db f fd millis uid' input' w'
      ]
        ≡ some (elim r [
          | fault ↦ none
          | ok uid' w' ↦ if last then some (cleanup uid' w') else then_on uid' w'
        ])
  followed f last left fault then_on h = refl
  followed f true left (ok uid w) then_on h = refl
  followed f false left (ok uid w) then_on h = h uid w

  serve-round :
      (f uid : ℕ) (p : Packet) (ps : List Packet) (pieces left : List Bytes) (w : World D)
      → round db fd (millis f) uid pieces w
        ≡ answer db fd (millis f) uid (header_of p) p.payload left w
      → ((uid : ℕ) (w : World D) → serve db f fd millis uid left w ≡ some (outcome f ps uid w))
      → serve db (suc f) fd millis uid pieces w ≡ some (outcome (suc f) (p ∷ ps) uid w)
  unfolding serve answer outcome
  serve-round f uid p ps pieces left w e h =
      let pred : f ≡ suc f - 1 = omega arith in
      rw (serve, e)
        (followed f (p.type == logout) left
            (handle db (context_of (millis f) uid p) p.type p.payload w) (outcome f ps) h
          ∙ ap
              (λ n.
                some
                  (elim (handle db (context_of (millis n) uid p) p.type p.payload w)
                    as (λ _. Option (World D)) [
                      | fault ↦ none
                      | ok uid' w' ↦
                          if p.type == logout then some (cleanup uid' w') else outcome n ps uid' w'
                    ]))
              pred)

  -- Whatever the requests, however their bytes are cut into pieces: where the client makes each with
  -- `createMessage`, each field fits its width and the connection ends behind the last one, the server's
  -- session always ends as the list of the requests says, with more rounds than requests.
  pub serve-outcome :
      (f : ℕ) (ps : List Packet) (pieces : List Bytes) (uid : ℕ) (w : World D)
      → length ps < f
      → All Fits ps
      → All NonEmpty pieces
      → flat pieces ≡ flat (map made ps)
      → serve db f fd millis uid pieces w ≡ some (outcome f ps uid w)
  unfolding serve round outcome
  serve-outcome zero ps pieces uid w b fits h e = absurd (omega (arith, b))
  serve-outcome (suc f) [] pieces uid w b fits h e = rw (serve, round, recv_all-nil pieces h e) refl
  serve-outcome (suc f) (p ∷ ps) pieces uid w b (fit, fits) h e =
      let (left, here, behind, full) =
        round-made (millis f) uid p pieces (flat (map made ps)) w fit h e in
      serve-round f uid p ps pieces left w here
        (λ uid' w'. serve-outcome f ps left uid' w' (omega (arith, b)) fits full behind)
