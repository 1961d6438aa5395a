-- ===== src/Client/Socket.antt =====
-- app/src/main/cpp/socket_manager.cpp: connecting, sending and receiving of `SocketManager`. The system
-- calls are the parameter `Net` on a state `S`.
pub mod Sending
pub mod Threads
use mobile_chatting_app.Common.{
  ℕ, zero, suc, ◌+◌, ◌-◌, Bool, true, false, ◌&&◌, not, ◌||◌, List, [], ◌∷◌, ◌++◌, Option, none,
  some, ltb, if◌then◌else◌, length, take, drop,
}
use mobile_chatting_app.Wire.Stream.{extract}
use mobile_chatting_app.Common.Bytes.{Bytes, is_empty}

-- `none` is a negative result. `send` and `recv` give the number of bytes accepted and the bytes read.
pub record Net (S : Type 0) : Type 0 where
  pub socket : S → Option ℕ × S
  pub inet_pton : Bytes → Bool
  pub connect : ℕ → Bytes → ℕ → S → Bool × S
  pub close : ℕ → S → S
  pub send : ℕ → Bytes → S → Option ℕ × S
  pub recv : ℕ → ℕ → S → Option Bytes × S

-- An object; `sockfd` is `none` for -1. `joinable` says that `receiveThread` is a thread, and `looping`
-- that this thread has not left `receiveLoop`, whose `messageBuffer` is `buffered`. `accepted` is what
-- `send` has taken so far. No code reads `looping` and `accepted`.
pub record SocketManager (S : Type 0) : Type 0 where
  pub sockfd : Option ℕ
  pub connected : Bool
  pub receiving : Bool
  pub joinable : Bool
  pub looping : Bool
  pub buffered : Bytes
  pub net : S
  pub accepted : Bytes

abbrev is_open : Option ℕ → Bool
is_open none = false
is_open (some fd) = true

module _ {S : Type 0} (sys : Net S) where
  -- A new socket replaces the one in `sockfd`, which is not closed.
  unfoldable pub connect : Bytes → ℕ → SocketManager S → Bool × SocketManager S
  connect host port s =
      let (made, n1) = sys.socket s.net in
      if s.connected then (true, s) else elim made [
        | none ↦ (false, record s { sockfd = none; net = n1 })
        | some fd ↦
            let (reached, n2) = sys.connect fd host port n1 in
            if not (sys.inet_pton host)
            then (false, record s { sockfd = none; net = sys.close fd n1 })
            else if not reached
            then (false, record s { sockfd = none; net = sys.close fd n2 })
            else (true, record s { sockfd = some fd; connected = true; net = n2 })
      ]

  -- `none` is the end of the program by `std::terminate`, where a thread takes the place of another
  -- that was not joined.
  unfoldable pub start_receive_loop : SocketManager S → Option (SocketManager S)
  start_receive_loop s =
      if s.receiving
      then some s
      else if s.joinable
      then none
      else some (record s { receiving = true; joinable = true; looping = true; buffered = [] })

  -- The two halves of `stopReceiveLoop`, which holds no lock: other threads may call the object between
  -- them. `join` waits until the thread has left its loop.
  unfoldable pub clear_receiving : SocketManager S → SocketManager S
  clear_receiving s = record s { receiving = false }

  unfoldable pub join_thread : SocketManager S → SocketManager S
  join_thread s = if s.joinable then record s { joinable = false; looping = false } else s

  -- Where no other call comes between the halves.
  unfoldable pub stop_receive_loop : SocketManager S → SocketManager S
  unfolding clear_receiving join_thread
  stop_receive_loop s = if s.receiving then join_thread (clear_receiving s) else s

  unfoldable pub disconnect : SocketManager S → SocketManager S
  unfolding stop_receive_loop
  disconnect s =
      let s1 = stop_receive_loop s in
      elim s1.sockfd [
        | none ↦ record s1 { connected = false }
        | some fd ↦ record s1 { sockfd = none; connected = false; net = sys.close fd s1.net }
      ]

  -- A round of the thread's loop with what `recv` returned, and the messages for the callback.
  unfoldable pub receive_round : Option Bytes → SocketManager S → List Bytes × SocketManager S
  unfolding extract
  receive_round got s =
      let bytes : Bytes = elim got [ none ↦ [] | some b ↦ b ] in
      let (messages, rest) = extract (length (s.buffered ++ bytes)) (s.buffered ++ bytes) in
      if not s.looping
      then ([], s)
      else if not (s.receiving && s.connected)
      then ([], record s { looping = false })
      else if is_empty bytes
      then ([], record s { connected = false; looping = false })
      else (messages, record s { buffered = rest })

  -- The loop of `sendData`; `none` is the end of the fuel.
  unfoldable pub send_loop : ℕ → ℕ → Bytes → SocketManager S → Option (Bool × SocketManager S)
  send_loop zero fd text s = if is_empty text then some (true, s) else none
  send_loop (suc f) fd text s =
      let (sent, n1) = sys.send fd text s.net in
      if is_empty text then some (true, s) else elim sent [
        | none ↦ some (false, record s { connected = false; net = n1 })
        | some k ↦
            send_loop f fd (drop k text)
              (record s { net = n1; accepted = s.accepted ++ take k text })
      ]

  unfoldable pub send_data : ℕ → Bytes → SocketManager S → Option (Bool × SocketManager S)
  unfolding send_loop
  send_data fuel text s = elim s.sockfd [
    | none ↦ some (false, s)
    | some fd ↦ let rest = send_loop fuel fd text s in if s.connected then rest else some (false, s)
  ]

  -- `none` is the result -1.
  unfoldable pub receive_data : ℕ → SocketManager S → Option Bytes × SocketManager S
  receive_data max_length s = elim s.sockfd [
    | none ↦ (none, s)
    | some fd ↦
        let (got, n1) = sys.recv fd max_length s.net in
        if not s.connected then (none, s) else elim got [
          | none ↦ (none, record s { connected = false; net = n1 })
          | some bytes ↦
              if is_empty bytes
              then (none, record s { connected = false; net = n1 })
              else (some bytes, record s { net = n1 })
        ]
  ]
