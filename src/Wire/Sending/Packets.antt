-- ===== src/Wire/Sending/Packets.antt =====
-- What `send_all` and `send_message` (server-cpp/src/network_utils.cpp) hand to the kernel.
use mobile_chatting_app.Common.{
  ℕ, zero, suc, ◌^◌, ◌%◌, ◌≤◌, ◌≡◌, refl, sym, ap, ◌∙◌, subst, Bool, true, false, inl, inr, [], ◌∷◌,
  ◌++◌, append-nil, append_assoc, Option, none, some, Option-cases, length, length-drop, take, drop,
  take-append-drop, if◌then◌else◌, arith,
}
use mobile_chatting_app.Common.Bytes.{Bytes, is_empty}
use mobile_chatting_app.Wire.Header.{write_header}
use mobile_chatting_app.Wire.Sending.{Kernel, Output, send_loop, send_all, send_message}

-- The call ends, and the kernel has taken the text, or a front of it after a failure.
abbrev pub IsTaken : {K : Type 0} → Bytes → Output K → Option (Bool × Output K) → Type 0
IsTaken text o none = ⊥
IsTaken text o (some (true, t)) = t.taken ≡ o.taken ++ text
IsTaken text o (some (false, t)) =
    (front : Bytes) × (rest : Bytes) × (text ≡ front ++ rest) × (t.taken ≡ o.taken ++ front)

-- A text whose front was taken before.
IsTaken-more :
    {K : Type 0} (done text : Bytes) (o u : Output K) (r : Option (Bool × Output K))
    → u.taken ≡ o.taken ++ done
    → IsTaken text u r
    → IsTaken (done ++ text) o r
IsTaken-more done text o u none a h = h
IsTaken-more done text o u (some (true, t)) a h =
    h ∙ ap (λ p. p ++ text) a ∙ append_assoc o.taken done text
IsTaken-more done text o u (some (false, t)) a (front, rest, e, h) = (
  done ++ front,
  rest,
  ap (λ p. done ++ p) e ∙ sym (append_assoc done front rest),
  h ∙ ap (λ p. p ++ front) a ∙ append_assoc o.taken done front,
)

module _ {K : Type 0} (send : Kernel K) where
  send_loop-IsTaken :
      (f fd : ℕ) (buf : Bytes) (o : Output K)
      → length buf ≤ f
      → IsTaken buf o (send_loop send f fd buf o)
  unfolding send_loop
  send_loop-IsTaken zero fd [] o h = sym (append-nil o.taken)
  send_loop-IsTaken (suc f) fd [] o h = sym (append-nil o.taken)
  send_loop-IsTaken zero fd (c ∷ buf) o h = absurd (omega arith)
  send_loop-IsTaken (suc f) fd (c ∷ buf) o h =
      let failed : IsTaken (c ∷ buf) o
          (some (false, record o { kernel = (send fd (c ∷ buf) o.kernel).1 })) =
        ([], c ∷ buf, refl, sym (append-nil o.taken)) in
      elim (Option-cases (send fd (c ∷ buf) o.kernel).0) [
        | inl e ↦ rw (IsTaken, e) failed
        | inr (zero, e) ↦ rw (IsTaken, e) failed
        | inr (suc n, e) ↦
            let u : Output K = record {
              kernel = (send fd (c ∷ buf) o.kernel).1;
              taken = o.taken ++ (c ∷ take n buf);
            } in
            let more = send_loop-IsTaken f fd (drop n buf) u (omega (arith, length-drop n buf)) in
            rw (IsTaken, e)
              (subst (λ text. IsTaken (c ∷ text) o (send_loop send f fd (drop n buf) u))
                (take-append-drop n buf)
                (IsTaken-more (c ∷ take n buf) (drop n buf) o u (send_loop send f fd (drop n buf) u)
                  refl more))
      ]

  pub send_all-IsTaken :
      (fd : ℕ) (buf : Bytes) (o : Output K) → IsTaken buf o (send_all send fd buf o)
  unfolding send_all
  send_all-IsTaken fd buf o = send_loop-IsTaken (length buf) fd buf o (omega arith)

-- A message on the wire.
abbrev pub wire : ℕ → Bytes → ℕ → ℕ → Bytes
wire type payload user_id ts = write_header type (length payload % 2 ^ 32) user_id ts ++ payload

-- The second half of a text after the first.
IsTaken-then :
    {K : Type 0} (first text : Bytes) (o : Output K) (r : Option (Bool × Output K))
    (next : Output K → Option (Bool × Output K))
    → IsTaken first o r
    → ((u : Output K) → IsTaken text u (next u))
    → IsTaken
        (first ++ text)
        o
        (elim r [ none ↦ none | some (sent, u) ↦ if sent then next u else some (false, u) ])
IsTaken-then first text o none next h k = h
IsTaken-then first text o (some (true, u)) next h k = IsTaken-more first text o u (next u) h (k u)
IsTaken-then first text o (some (false, u)) next (front, rest, e, h) k =
    (front, rest ++ text, ap (λ p. p ++ text) e ∙ append_assoc front rest text, h)

module _ {K : Type 0} (send : Kernel K) where
  -- `send_message` always ends. Where it returns true the kernel took exactly the header and the
  -- payload; else it took a front of them.
  pub send_message-IsTaken :
      (fd type : ℕ) (payload : Bytes) (user_id ts : ℕ) (o : Output K)
      → IsTaken (wire type payload user_id ts) o (send_message send fd type payload user_id ts o)
  unfolding send_message
  send_message-IsTaken fd type payload user_id ts o =
      IsTaken-then (write_header type (length payload % 2 ^ 32) user_id ts) payload o
        (send_all send fd (write_header type (length payload % 2 ^ 32) user_id ts) o)
        (λ u. if is_empty payload then some (true, u) else send_all send fd payload u)
        (send_all-IsTaken send fd (write_header type (length payload % 2 ^ 32) user_id ts) o)
        (λ u. payload-IsTaken payload u)
    where
      payload-IsTaken :
          (p : Bytes) (u : Output K)
          → IsTaken p u (if is_empty p then some (true, u) else send_all send fd p u)
      payload-IsTaken [] u = sym (append-nil u.taken)
      payload-IsTaken (c ∷ p) u = send_all-IsTaken send fd (c ∷ p) u
