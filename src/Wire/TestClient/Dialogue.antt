-- ===== src/Wire/TestClient/Dialogue.antt =====
-- The answers that server-cpp/tools/test_client.cpp prints are the ones that the server sent.
use mobile_chatting_app.Common.{
  ℕ, zero, suc, ◌^◌, ◌≤◌, ◌<◌, ◌≡◌, ◌≢◌, refl, sym, ap, ◌∙◌, subst, Bool, true, false, not, List,
  [], ◌∷◌, ◌++◌, append-nil, append_assoc, map, Option, none, some, ◌==◌, length, length-drop, take,
  drop, if◌then◌else◌, get_or, All, arith,
}
use mobile_chatting_app.Common.Bytes.{Bytes}
use mobile_chatting_app.Server.Protocol.{get_user_groups}
use mobile_chatting_app.Wire.Word.{load32, htonl, network_round_trip}
use mobile_chatting_app.Wire.Header.{write_header, length-write_header}
use mobile_chatting_app.Wire.Packet.{Packet, Fits, bytes_of, bytes_of-eq}
use mobile_chatting_app.Wire.Sending.{Kernel, Output, send_loop, send_all}
use mobile_chatting_app.Wire.Sending.Packets.{IsTaken, send_all-IsTaken}
use mobile_chatting_app.Wire.Stream.{recv_all}
use mobile_chatting_app.Wire.Stream.Frames.{flat}
use mobile_chatting_app.Wire.Stream.Receive.{NonEmpty, Reads, recv_all_lem}
use mobile_chatting_app.Wire.TestClient.{recv_response, send_header_and_payload, answers}

length_field :
    (type len user_id ts : ℕ)
    → len < 2 ^ 32
    → htonl (load32 (write_header type len user_id ts) 6) ≡ len
unfolding write_header
length_field type len user_id ts h = network_round_trip len h

type_field : (type len user_id ts : ℕ) → get_or (write_header type len user_id ts) 5 0 ≡ type
unfolding write_header
type_field type len user_id ts = refl

-- The answer is read, and what is left begins behind it.
abbrev Responds : Option (ℕ × Bytes × List Bytes) → ℕ → Bytes → Bytes → Type 0
Responds r type payload rest =
    (left : List Bytes) × (r ≡ some (type, payload, left)) × (flat left ≡ rest) × All NonEmpty left

payload_read :
    (type : ℕ) (payload rest : Bytes) (pieces : List Bytes)
    → All NonEmpty pieces
    → flat pieces ≡ payload ++ rest
    → Responds
        (if length payload == 0
          then some (type, [], pieces)
          else elim (recv_all (length payload) pieces) [
            | none ↦ none
            | some (got, left) ↦ some (type, got, left)
          ])
        type
        payload
        rest
payload_read type [] rest pieces h e = (pieces, refl, e, h)
payload_read type (c ∷ cs) rest pieces h e =
    let (left, read, behind, full) = recv_all_lem pieces (c ∷ cs) rest h e in
    (left, ground (arith, read), behind, full)

header_read :
    (pieces left : List Bytes) (header payload rest : Bytes) (type : ℕ)
    → recv_all 32 pieces ≡ some (header, left)
    → get_or header 5 0 ≡ type
    → htonl (load32 header 6) ≡ length payload
    → All NonEmpty left
    → flat left ≡ payload ++ rest
    → Responds (recv_response pieces) type payload rest
unfolding recv_response
header_read pieces left header payload rest type r t l h e =
    subst (λ y. Responds (recv_response pieces) y payload rest) t
      (rw (recv_response, r, l) (payload_read (get_or header 5 0) payload rest left h e))

recv_response-Responds :
    (p : Packet) (pieces : List Bytes) (rest : Bytes)
    → Fits p
    → All NonEmpty pieces
    → flat pieces ≡ bytes_of p ++ rest
    → Responds (recv_response pieces) p.type p.payload rest
recv_response-Responds p pieces rest fits h e =
    let size : length p.payload < 2 ^ 32 = omega (arith, fits.0) in
    let header = write_header p.type (length p.payload) p.user_id p.ts in
    let whole = e ∙ ap (λ t. t ++ rest) (bytes_of-eq p fits) ∙ append_assoc header p.payload rest in
    let (left, read, behind, full) =
      subst (λ n. Reads n pieces header (p.payload ++ rest))
        (length-write_header p.type (length p.payload) p.user_id p.ts)
        (recv_all_lem pieces header (p.payload ++ rest) h whole) in
    header_read pieces left header p.payload rest p.type read
      (type_field p.type (length p.payload) p.user_id p.ts)
      (length_field p.type (length p.payload) p.user_id p.ts size) full behind

-- A request without a payload.
abbrev pub request : ℕ → ℕ → Bytes
request user_id ts =
    bytes_of (record { type = get_user_groups; payload = []; user_id = user_id; ts = ts })

-- A request that is entered, with its time, and the server's answer.
abbrev pub IsExchange : ℕ × ℕ × Packet → Type 0
IsExchange (user_id, ts, p) = (user_id ≢ 0) × Fits p

abbrev pub entered_of : List (ℕ × ℕ × Packet) → List (ℕ × ℕ)
entered_of = map (λ (user_id, ts, _). (user_id, ts))

abbrev pub requests_of : List (ℕ × ℕ × Packet) → List Bytes
requests_of = map (λ (user_id, ts, _). request user_id ts)

abbrev pub answers_of : List (ℕ × ℕ × Packet) → List Bytes
answers_of = map (λ (_, _, p). bytes_of p)

abbrev pub printed_of : List (ℕ × ℕ × Packet) → List (ℕ × Bytes)
printed_of = map (λ (_, _, p). (p.type, p.payload))

module _ {K : Type 0} (send : Kernel K) where
  -- The kernel takes something of each text that is not empty.
  abbrev pub IsWilling : Type 0
  IsWilling = (fd c : ℕ) (buf : Bytes) (k : K) → (n : ℕ) × ((send fd (c ∷ buf) k).0 ≡ some (suc n))

  abbrev Succeeds : Option (Bool × Output K) → Type 0
  Succeeds none = ⊥
  Succeeds (some (sent, o)) = sent ≡ true

  send_loop-Succeeds :
      (f fd : ℕ) (buf : Bytes) (o : Output K)
      → IsWilling
      → length buf ≤ f
      → Succeeds (send_loop send f fd buf o)
  unfolding send_loop
  send_loop-Succeeds zero fd [] o h b = refl
  send_loop-Succeeds (suc f) fd [] o h b = refl
  send_loop-Succeeds zero fd (c ∷ buf) o h b = absurd (omega (arith, b))
  send_loop-Succeeds (suc f) fd (c ∷ buf) o h b =
      let (n, e) = h fd c buf o.kernel in
      let more =
        send_loop-Succeeds f fd (drop n buf)
          (record { kernel = (send fd (c ∷ buf) o.kernel).1; taken = o.taken ++ (c ∷ take n buf) })
          h (omega (arith, b, length-drop n buf)) in
      rw (Succeeds, e) more

  both :
      (text : Bytes) (o : Output K) (r : Option (Bool × Output K))
      → IsTaken text o r
      → Succeeds r
      → (u : Output K) × (r ≡ some (true, u)) × (u.taken ≡ o.taken ++ text)
  both text o none h k = absurd h
  both text o (some (true, u)) h k = (u, refl, h)
  both text o (some (false, u)) h k = absurd (ground (arith, k))

  no_payload :
      (r : Option (Bool × Output K)) (u : Output K) (k : Output K → Option (Bool × Output K))
      → r ≡ some (true, u)
      → elim r [
        | none ↦ none
        | some (sent, o1) ↦
            if not sent then some (false, o1) else if false then k o1 else some (true, o1)
      ]
        ≡ some (true, u)
  no_payload r u k e = rw e refl

  request-sent :
      (fd user_id ts : ℕ) (o : Output K)
      → IsWilling
      → (u : Output K) × (send_header_and_payload send fd get_user_groups [] user_id ts o
          ≡ some (true, u))
        × (u.taken ≡ o.taken ++ request user_id ts)
  unfolding send_header_and_payload send_all
  request-sent fd user_id ts o h =
      let header = write_header get_user_groups 0 user_id ts in
      let (u, e, t) =
        both header o (send_loop send (length header) fd header o)
          (unfold send_all in send_all-IsTaken send fd header o)
          (send_loop-Succeeds (length header) fd header o h (omega arith)) in
      (
        u,
        no_payload _ u (send_all send fd []) e,
        t ∙ ap (λ s. o.taken ++ s) (sym (append-nil header)),
      )

  one_round :
      (fd user_id ts type : ℕ) (payload : Bytes) (entered : List (ℕ × ℕ)) (pieces left : List Bytes)
      (o o1 o2 : Output K) (printed : List (ℕ × Bytes))
      → user_id ≢ 0
      → send_header_and_payload send fd get_user_groups [] user_id ts o ≡ some (true, o1)
      → recv_response pieces ≡ some (type, payload, left)
      → answers send fd entered left o1 ≡ some (printed, o2)
      → answers send fd ((user_id, ts) ∷ entered) pieces o ≡ some ((type, payload) ∷ printed, o2)
  unfolding answers
  one_round fd user_id ts type payload entered pieces left o o1 o2 printed h s r a =
      ground (arith, h, s, r, a)

  -- Where the kernel takes something of each text, the connection stays open and the server answers
  -- each request with one message whose fields fit their widths, the tool always gets through the
  -- numbers that are entered, none of which is 0: it sends exactly one request for each, and prints the
  -- type and the payload of exactly the answers, in their order, however the bytes arrive.
  pub answers-IsWilling :
      (fd : ℕ) (talk : List (ℕ × ℕ × Packet)) (pieces : List Bytes) (o : Output K)
      → IsWilling
      → All IsExchange talk
      → All NonEmpty pieces
      → flat pieces ≡ flat (answers_of talk)
      → (u : Output K) × (answers send fd (entered_of talk) pieces o ≡ some (printed_of talk, u))
        × (u.taken ≡ o.taken ++ flat (requests_of talk))
  unfolding answers
  answers-IsWilling fd [] pieces o h hs k e = (o, refl, sym (append-nil o.taken))
  answers-IsWilling fd ((user_id, ts, p) ∷ talk) pieces o h (x, xs) k e =
      let (o1, sent, taken) = request-sent fd user_id ts o h in
      let (left, read, behind, full) =
        recv_response-Responds p pieces (flat (answers_of talk)) x.1 k e in
      let (u, rest, all) = answers-IsWilling fd talk left o1 h xs full behind in
      (
        u,
        one_round fd user_id ts p.type p.payload (entered_of talk) pieces left o o1 u
            (printed_of talk) x.0 sent read rest,
        all
            ∙ ap (λ s. s ++ flat (requests_of talk)) taken
            ∙ append_assoc o.taken (request user_id ts) (flat (requests_of talk)),
      )
