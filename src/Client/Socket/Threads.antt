-- ===== src/Client/Socket/Threads.antt =====
-- The receiving thread of `SocketManager` (app/src/main/cpp/socket_manager.cpp) over its life.
use mobile_chatting_app.Common.{
  List, ◌∷◌, refl, ℕ, ◌≡◌, ◌≢◌, sym, ap, ◌∙◌, take, drop, zero, suc, [], Bool, true, false, Option,
  none, some, Option-cases, inl, inr, arith, length, ◌++◌,
}
use mobile_chatting_app.Common.Bytes.{Bytes}
use mobile_chatting_app.Client.Socket.{
  Net, SocketManager, connect, disconnect, start_receive_loop, stop_receive_loop, clear_receiving,
  join_thread, send_loop, send_data, receive_data, receive_round,
}

-- There is a thread exactly while `receiving` is set, and it loops at most then.
abbrev pub IsJoined : {S : Type 0} → SocketManager S → Type 0
IsJoined s = (s.joinable ≡ s.receiving) × (s.looping ≡ true → s.receiving ≡ true)

-- Rounds of the thread, with what `recv` returns in each.
abbrev pub rounds : {S : Type 0} → Net S → List (Option Bytes) → SocketManager S → SocketManager S
rounds sys [] s = s
rounds sys (got ∷ gots) s = rounds sys gots (receive_round sys got s).1

-- A call of the object from the outside, which has ended before the next begins, or a round of its
-- thread. In `waits` a call of `stopReceiveLoop` waits for the thread, which takes its last rounds.
pub data Call {S : Type 0} (sys : Net S) : SocketManager S → SocketManager S → Type 0 where
  connects :
      (host : Bytes) (port : ℕ) (s : SocketManager S) → Call sys s (connect sys host port s).1
  disconnects : (s : SocketManager S) → Call sys s (disconnect sys s)
  starts : (s t : SocketManager S) → start_receive_loop sys s ≡ some t → Call sys s t
  stops : (s : SocketManager S) → Call sys s (stop_receive_loop sys s)
  waits :
      (gots : List (Option Bytes)) (s : SocketManager S)
      → s.receiving ≡ true
      → Call sys s (join_thread sys (rounds sys gots (clear_receiving sys s)))
  sends :
      (text : Bytes) (done : Bool) (s t : SocketManager S)
      → send_data sys (length text) text s ≡ some (done, t)
      → Call sys s t
  receives : (n : ℕ) (s : SocketManager S) → Call sys s (receive_data sys n s).1
  turns : (got : Option Bytes) (s : SocketManager S) → Call sys s (receive_round sys got s).1

pub data Lives {S : Type 0} (sys : Net S) (s : SocketManager S) : SocketManager S → Type 0 where
  made : Lives sys s s
  then_call : (t u : SocketManager S) → Lives sys s t → Call sys t u → Lives sys s u

-- The thread is as before.
abbrev SameThread : {S : Type 0} → SocketManager S → SocketManager S → Type 0
SameThread s t = (t.joinable ≡ s.joinable) × (t.receiving ≡ s.receiving) × (t.looping ≡ s.looping)

SameThread-IsJoined :
    {S : Type 0} (s t : SocketManager S) → SameThread s t → IsJoined s → IsJoined t
SameThread-IsJoined s t (a, b, c) (h, k) =
    (ground (arith, a, b, h), λ l. ground (arith, b, c, k, l))

module _ {S : Type 0} (sys : Net S) where
  connect-SameThread :
      (host : Bytes) (port : ℕ) (s : SocketManager S) → SameThread s (connect sys host port s).1
  unfolding connect
  connect-SameThread host port s = ground arith

  receive_data-SameThread : (n : ℕ) (s : SocketManager S) → SameThread s (receive_data sys n s).1
  unfolding receive_data
  receive_data-SameThread n s = ground arith

  stop-IsJoined : (s : SocketManager S) → IsJoined s → IsJoined (stop_receive_loop sys s)
  unfolding stop_receive_loop
  stop-IsJoined s (h, k) = ground (arith, h, k)

  receive_round-SameMembers :
      (got : Option Bytes) (s : SocketManager S)
      → ((receive_round sys got s).1.receiving ≡ s.receiving)
        × ((receive_round sys got s).1.joinable ≡ s.joinable)
  unfolding receive_round
  receive_round-SameMembers got s = ground arith

  rounds-SameMembers :
      (gots : List (Option Bytes)) (s : SocketManager S)
      → ((rounds sys gots s).receiving ≡ s.receiving) × ((rounds sys gots s).joinable ≡ s.joinable)
  rounds-SameMembers [] s = (refl, refl)
  rounds-SameMembers (got ∷ gots) s =
      let (same, joins) = receive_round-SameMembers got s in
      let (same', joins') = rounds-SameMembers gots (receive_round sys got s).1 in
      (same' ∙ same, joins' ∙ joins)

  waits-IsJoined :
      (gots : List (Option Bytes)) (s : SocketManager S)
      → s.receiving ≡ true
      → IsJoined s
      → IsJoined (join_thread sys (rounds sys gots (clear_receiving sys s)))
  unfolding join_thread clear_receiving
  waits-IsJoined gots s r (h, _) =
      let (same, joins) = rounds-SameMembers gots (clear_receiving sys s) in
      ground (arith, same, joins, r, h)

  disconnect-SameThread :
      (s : SocketManager S) → SameThread (stop_receive_loop sys s) (disconnect sys s)
  unfolding disconnect
  disconnect-SameThread s = ground arith

  start-IsJoined :
      (s t : SocketManager S) → start_receive_loop sys s ≡ some t → IsJoined s → IsJoined t
  unfolding start_receive_loop
  start-IsJoined s t e (h, k) = ground (arith, e, h, k)

  receive_round-IsJoined :
      (got : Option Bytes) (s : SocketManager S) → IsJoined s → IsJoined (receive_round sys got s).1
  unfolding receive_round
  receive_round-IsJoined got s (h, k) = ground (arith, h, k)

  send_loop-SameThread :
      (f fd : ℕ) (text : Bytes) (done : Bool) (s t : SocketManager S)
      → send_loop sys f fd text s ≡ some (done, t)
      → SameThread s t
  unfolding send_loop
  send_loop-SameThread zero fd text done s t e = ground (arith, e)
  send_loop-SameThread (suc f) fd text done s t e = elim (Option-cases (sys.send fd text s.net).0) [
    | inl none_sent ↦ ground (arith, e, none_sent)
    | inr (k, some_sent) ↦
        let u : SocketManager S = record s {
          net = (sys.send fd text s.net).1;
          accepted = s.accepted ++ take k text;
        } in
        let later = send_loop-SameThread f fd (drop k text) done u t in
        ground (arith, e, some_sent, later)
  ]

  send_data-SameThread :
      (text : Bytes) (done : Bool) (s t : SocketManager S)
      → send_data sys (length text) text s ≡ some (done, t)
      → SameThread s t
  unfolding send_data
  send_data-SameThread text done s t e = elim (Option-cases s.sockfd) [
    | inl closed ↦ ground (arith, e, closed)
    | inr (fd, open_there) ↦
        let sent = send_loop-SameThread (length text) fd text done s t in
        ground (arith, e, open_there, sent)
  ]

  Call-IsJoined : (s t : SocketManager S) → Call sys s t → IsJoined s → IsJoined t
  Call-IsJoined s _ (connects host port _) h =
      SameThread-IsJoined s (connect sys host port s).1 (connect-SameThread host port s) h
  Call-IsJoined s _ (disconnects _) h =
      SameThread-IsJoined (stop_receive_loop sys s) (disconnect sys s) (disconnect-SameThread s)
        (stop-IsJoined s h)
  Call-IsJoined s t (starts _ _ e) h = start-IsJoined s t e h
  Call-IsJoined s _ (stops _) h = stop-IsJoined s h
  Call-IsJoined s _ (waits gots _ r) h = waits-IsJoined gots s r h
  Call-IsJoined s t (sends text done _ _ e) h =
      SameThread-IsJoined s t (send_data-SameThread text done s t e) h
  Call-IsJoined s _ (receives n _) h =
      SameThread-IsJoined s (receive_data sys n s).1 (receive_data-SameThread n s) h
  Call-IsJoined s _ (turns got _) h = receive_round-IsJoined got s h

  Lives-IsJoined : (s t : SocketManager S) → Lives sys s t → IsJoined s → IsJoined t
  Lives-IsJoined s _ made h = h
  Lives-IsJoined s u (then_call t _ before call) h =
      Call-IsJoined t u call (Lives-IsJoined s t before h)

  starts_anyway : (t : SocketManager S) → IsJoined t → start_receive_loop sys t ≢ none
  unfolding start_receive_loop
  starts_anyway t (h, _) = ground (arith, h)

  -- After any calls on an object that was made without a thread, one at a time, and any rounds of its
  -- threads, also while a call waits for one, `startReceiveLoop` does not end the program: it replaces no thread that was not joined.
  pub start_receive_loop-ne-none :
      (s t : SocketManager S)
      → s.receiving ≡ false
      → s.joinable ≡ false
      → s.looping ≡ false
      → Lives sys s t
      → start_receive_loop sys t ≢ none
  start_receive_loop-ne-none s t r j l life =
      starts_anyway t
        (Lives-IsJoined s t life (j ∙ sym r, λ looping. absurd (ground (arith, l, looping))))

  hangup_leaves :
      (s : SocketManager S)
      → s.looping ≡ true
      → s.receiving ≡ true
      → ((receive_round sys (some []) s).1.receiving ≡ true)
        × ((receive_round sys (some []) s).1.looping ≡ false)
  unfolding receive_round
  hangup_leaves s l r = ground (arith, l, r)

  kept_running : (s : SocketManager S) → s.receiving ≡ true → start_receive_loop sys s ≡ some s
  unfolding start_receive_loop
  kept_running s r = ground (arith, r)

  -- Where the thread loops, and `receiving` and `receiveThread` agree on it, and then the server closes
  -- the connection, the thread has ended but `receiving` is still set: `connect` and `startReceiveLoop`
  -- return, but `startReceiveLoop` changes nothing, so that no thread reads from the new connection.
  pub reconnect_deaf :
      (host : Bytes) (port : ℕ) (s v : SocketManager S)
      → s.looping ≡ true
      → IsJoined s
      → v ≡ (connect sys host port (receive_round sys (some []) s).1).1
      → (start_receive_loop sys v ≡ some v) × (v.looping ≡ false)
  reconnect_deaf host port s v l (h, k) e =
      let u = (receive_round sys (some []) s).1 in
      let (_, same, deaf) = connect-SameThread host port u in
      let (on, off) = hangup_leaves s l (k l) in
      (kept_running v (ap (λ t. t.receiving) e ∙ same ∙ on), ap (λ t. t.looping) e ∙ deaf ∙ off)
