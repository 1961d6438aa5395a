-- ===== src/Tests/Native.antt =====
-- Runs of the socket manager's thread, of the native functions and of the tools on the wire.
use mobile_chatting_app.Common.{
  ℕ, zero, suc, ◌+◌, ◌%◌, ◌≡◌, ◌≢◌, refl, true, false, List, [], ◌∷◌, ◌++◌, some, none, length,
  take, arith, if◌then◌else◌,
}
use mobile_chatting_app.Common.Bytes.{Bytes, codes, Lacks}
use mobile_chatting_app.Wire.Header.{write_header}
use mobile_chatting_app.Wire.Packet.{Packet, Fits, bytes_of}
use mobile_chatting_app.Wire.Sending.{Kernel, Output, send_message}
use mobile_chatting_app.Wire.Sending.Packets.{IsTaken, wire, send_message-IsTaken}
use mobile_chatting_app.Wire.Stream.{receive_loop}
use mobile_chatting_app.Wire.Stream.Frames.{flat}
use mobile_chatting_app.Wire.TestClient.{answers}
use mobile_chatting_app.Wire.TestClient.Dialogue.{IsWilling, request, answers-IsWilling}
use mobile_chatting_app.Client.Socket.{
  SocketManager, connect, disconnect, start_receive_loop, receive_round,
}
use mobile_chatting_app.Client.Socket.Threads.{
  Lives, made, then_call, starts, turns, disconnects, start_receive_loop-ne-none, reconnect_deaf,
}
use mobile_chatting_app.Client.Native.{
  Globals, native_init, native_set_callback, jni_on_load, native_encrypt, native_decrypt,
  on_messages, Jstring, net_released,
}
use mobile_chatting_app.Client.Native.Strings.{asked_by, continues, is_modified_utf8, IsNewString}
use mobile_chatting_app.Client.Native.Secrets.{native_decrypt-native_encrypt}
use mobile_chatting_app.Client.Native.Arrival.{IsText, on_messages-receive_loop}
use mobile_chatting_app.Tests.Client.{slow_net, online}

-- A kernel that takes two bytes at most, and fails at its third call.
abbrev two_calls : Kernel ℕ
two_calls fd buf zero = (none, zero)
two_calls fd buf (suc k) = (some (length (take 2 buf)), k)

abbrev nothing_sent : Output ℕ
nothing_sent = record { kernel = 2; taken = [] }

send_message-IsTaken_example :
    IsTaken
      (wire 20 (codes "hi") 3 1700000000)
      nothing_sent
      (send_message two_calls 4 20 (codes "hi") 3 1700000000 nothing_sent)
send_message-IsTaken_example =
    send_message-IsTaken two_calls 4 20 (codes "hi") 3 1700000000 nothing_sent

-- The thread runs, the server hangs up, and the object disconnects.
abbrev running : SocketManager ℕ
running = record online { receiving = true; joinable = true; looping = true }

running_there : start_receive_loop slow_net online ≡ some running
unfolding start_receive_loop
running_there = refl

abbrev hung_up : SocketManager ℕ
hung_up = (receive_round slow_net (some []) running).1

whole_life : Lives slow_net online (disconnect slow_net hung_up)
whole_life =
    then_call hung_up (disconnect slow_net hung_up)
      (then_call running hung_up
        (then_call online running made (starts online running running_there))
        (turns (some []) running))
      (disconnects hung_up)

start_receive_loop-ne-none_example :
    start_receive_loop slow_net (disconnect slow_net hung_up) ≢ none
start_receive_loop-ne-none_example =
    start_receive_loop-ne-none slow_net online (disconnect slow_net hung_up) refl refl refl
      whole_life

reconnect_deaf_example :
    (start_receive_loop slow_net (connect slow_net (codes "h") 8080 hung_up).1
      ≡ some (connect slow_net (codes "h") 8080 hung_up).1)
    × ((connect slow_net (codes "h") 8080 hung_up).1.looping ≡ false)
reconnect_deaf_example =
    reconnect_deaf slow_net (codes "h") 8080 running (connect slow_net (codes "h") 8080 hung_up).1
      refl (refl, λ e. e) refl

-- A generator that counts.
abbrev counting : ℕ → ℕ × ℕ
counting n = (n % 256, n + 1)

-- A `NewStringUTF` that makes a string of modified UTF-8 only.
abbrev some_string : Bytes → Jstring
some_string s = if is_modified_utf8 s then some s else none

some_string-IsNewString : IsNewString some_string
some_string-IsNewString s h = rw h refl

abbrev nothing_yet : Globals ℕ ℕ
nothing_yet = record {
  socket_manager = none;
  protocol_handler = false;
  crypto_utils = none;
  serializer = false;
  jvm = false;
  callback_object = none;
  delivered = [];
  net = 0;
}

abbrev ready : Globals ℕ ℕ
ready = native_set_callback counting slow_net some_string 11 (
    native_init counting slow_net some_string 7
      (jni_on_load counting slow_net some_string nothing_yet))

hello_Lacks : Lacks 0 (codes "hello")
hello_Lacks = (omega arith, (omega arith, (omega arith, (omega arith, (omega arith, tt)))))

hello_IsText : is_modified_utf8 (codes "hello") ≡ true
unfolding continues asked_by
hello_IsText = refl

native_decrypt-native_encrypt_example :
    (native_decrypt counting slow_net some_string
      (native_encrypt counting slow_net some_string
        (some (codes "hello"))
        (some (codes "key"))
        ready).0
      (some (codes "key"))
      ready).0
    ≡ some (codes "hello")
unfolding native_init net_released native_set_callback jni_on_load
native_decrypt-native_encrypt_example =
    native_decrypt-native_encrypt counting slow_net some_string some_string-IsNewString
      (codes "hello") (some (codes "key")) ready ready
      (record { aes_key = []; iv = []; generator = 7 })
      (record { aes_key = []; iv = []; generator = 7 }) refl refl hello_Lacks
      (omega arith, (omega arith, (omega arith, (omega arith, (omega arith, tt))))) hello_IsText

abbrev greeting : Packet
greeting = record { type = 20; payload = codes "hi"; user_id = 3; ts = 1700000000 }

abbrev pulse : Packet
pulse = record { type = 0; payload = []; user_id = 0; ts = 1700000001 }

greeting-Fits : Fits greeting
greeting-Fits = (omega arith, omega arith, omega arith)

pulse-Fits : Fits pulse
pulse-Fits = (omega arith, omega arith, omega arith)

greeting-IsText : IsText greeting
unfolding continues asked_by
greeting-IsText = refl

pulse-IsText : IsText pulse
unfolding continues
pulse-IsText = refl

abbrev arriving : List Bytes
arriving = bytes_of greeting ∷ bytes_of pulse ∷ []

on_messages-receive_loop_example :
    on_messages counting slow_net some_string true (receive_loop arriving []).0 ready
    ≡ some (record ready { delivered = [] ++ ((20, some (codes "hi")) ∷ (0, some []) ∷ []) })
unfolding native_init net_released native_set_callback jni_on_load
on_messages-receive_loop_example =
    on_messages-receive_loop counting slow_net some_string some_string-IsNewString
      (greeting ∷ pulse ∷ []) arriving 11 ready (greeting-Fits, (pulse-Fits, tt))
      (greeting-IsText, (pulse-IsText, tt)) refl refl refl refl

-- A kernel that takes one byte at a time.
abbrev slow_kernel : Kernel ℕ
slow_kernel fd buf k = (some 1, suc k)

slow_kernel-IsWilling : IsWilling slow_kernel
slow_kernel-IsWilling fd c buf k = (0, refl)

answers-IsWilling_example :
    (u : Output ℕ) × (answers slow_kernel 4 ((3, 100) ∷ (5, 101) ∷ []) arriving nothing_sent
      ≡ some ((20, codes "hi") ∷ (0, []) ∷ [], u))
    × (u.taken ≡ [] ++ flat (request 3 100 ∷ request 5 101 ∷ []))
unfolding write_header
answers-IsWilling_example =
    answers-IsWilling slow_kernel 4 ((3, 100, greeting) ∷ (5, 101, pulse) ∷ []) arriving
      nothing_sent slow_kernel-IsWilling
      (
        (λ e. absurd (omega (arith, e)), greeting-Fits),
        ((λ e. absurd (omega (arith, e)), pulse-Fits), tt),
      )
      (λ e. cc, (λ e. cc, tt)) refl
