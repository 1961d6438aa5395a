-- ===== src/Client/Socket/Sending.antt =====
-- `SocketManager::sendData` (app/src/main/cpp/socket_manager.cpp) sends all of its bytes or fails.
use mobile_chatting_app.Common.{
  ℕ, zero, suc, ◌≤◌, ◌<◌, ◌≡◌, refl, sym, ap, ◌∙◌, subst, Bool, true, false, inl, inr, [], ◌∷◌,
  ◌++◌, append-nil, append_assoc, Option, none, some, Option-cases, length, length-drop, take, drop,
  take-append-drop, if◌then◌else◌, arith,
}
use mobile_chatting_app.Common.Bytes.{Bytes}
use mobile_chatting_app.Client.Socket.{Net, SocketManager, send_loop, send_data}

-- The loop ends, and the bytes that `send` took are the text, or a front of it after a failure.
abbrev pub IsSentBy :
    {S : Type 0} → Bytes → SocketManager S → Option (Bool × SocketManager S) → Type 0
IsSentBy text s none = ⊥
IsSentBy text s (some (true, t)) = (t.accepted ≡ s.accepted ++ text) × (t.connected ≡ s.connected)
IsSentBy text s (some (false, t)) =
    (t.connected ≡ false)
    × (front : Bytes) × (rest : Bytes) × (text ≡ front ++ rest)
    × (t.accepted ≡ s.accepted ++ front)

-- The guard of the methods on an open connection.
when_open :
    {A : Type 0} (o : Option ℕ) (b : Bool) (fd : ℕ) (f : ℕ → A) (d : A)
    → o ≡ some fd
    → b ≡ true
    → (elim o [ none ↦ d | some n ↦ if b then f n else d ]) ≡ f fd
when_open o b fd f d e c = rw (e, c) refl

-- `send` takes at least one byte of a text, or fails.
abbrev pub IsLive : {S : Type 0} → Net S → Type 0
IsLive {S = S} sys =
    (fd : ℕ) (text : Bytes) (n : S) (k : ℕ) → (sys.send fd text n).0 ≡ some k → 0 < k

module _ {S : Type 0} (sys : Net S) (live : IsLive sys) where
  sent_more :
      (k : ℕ) (text : Bytes) (s u : SocketManager S) (r : Option (Bool × SocketManager S))
      → u.accepted ≡ s.accepted ++ take k text
      → u.connected ≡ s.connected
      → IsSentBy (drop k text) u r
      → IsSentBy text s r
  sent_more k text s u none a c h = h
  sent_more k text s u (some (true, t)) a c (h, i) = (
    h
        ∙ ap (λ p. p ++ drop k text) a
        ∙ append_assoc s.accepted (take k text) (drop k text)
        ∙ ap (λ p. s.accepted ++ p) (take-append-drop k text),
    i ∙ c,
  )
  sent_more k text s u (some (false, t)) a c (down, front, rest, e, h) = (
    down,
    take k text ++ front,
    rest,
    sym (take-append-drop k text)
        ∙ ap (λ p. take k text ++ p) e
        ∙ sym (append_assoc (take k text) front rest),
    h ∙ ap (λ p. p ++ front) a ∙ append_assoc s.accepted (take k text) front,
  )

  send_loop-IsSentBy :
      (f fd : ℕ) (text : Bytes) (s : SocketManager S)
      → length text ≤ f
      → IsSentBy text s (send_loop sys f fd text s)
  unfolding send_loop
  send_loop-IsSentBy zero fd [] s h = (sym (append-nil s.accepted), refl)
  send_loop-IsSentBy zero fd (c ∷ text) s h = absurd (omega arith)
  send_loop-IsSentBy (suc f) fd [] s h = (sym (append-nil s.accepted), refl)
  send_loop-IsSentBy (suc f) fd (c ∷ text) s h =
      elim (Option-cases (sys.send fd (c ∷ text) s.net).0) [
        | inl e ↦ rw (IsSentBy, e) (refl, [], c ∷ text, refl, sym (append-nil s.accepted))
        | inr (k, e) ↦
            let n1 = (sys.send fd (c ∷ text) s.net).1 in
            let u : SocketManager S = record s {
              net = n1;
              accepted = s.accepted ++ take k (c ∷ text);
            } in
            let more =
              send_loop-IsSentBy f fd (drop k (c ∷ text)) u
                (omega (arith, live fd (c ∷ text) s.net k e, length-drop k (c ∷ text))) in
            rw (IsSentBy, e)
              (sent_more k (c ∷ text) s u (send_loop sys f fd (drop k (c ∷ text)) u) refl refl more)
      ]

  -- `sendData` on an open connection always ends, where `send` takes at least one byte or fails: as
  -- many rounds as bytes are enough. It returns true where exactly the text was taken, and false with
  -- the connection given up after a front of the text was taken.
  pub send_data-IsSentBy :
      (text : Bytes) (fd : ℕ) (s : SocketManager S)
      → s.sockfd ≡ some fd
      → s.connected ≡ true
      → IsSentBy text s (send_data sys (length text) text s)
  unfolding send_data
  send_data-IsSentBy text fd s e c =
      subst (IsSentBy text s)
        (sym (
          when_open s.sockfd s.connected fd (λ n. send_loop sys (length text) n text s)
            (some (false, s)) e c))
        (send_loop-IsSentBy (length text) fd text s (omega arith))
