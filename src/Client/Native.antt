-- ===== src/Client/Native.antt =====
-- app/src/main/cpp/native-lib.cpp: what the Kotlin code calls, on the global objects. A `jstring` is its
-- modified UTF-8, and `none` is null. The Java virtual machine's part are the parameters `has_method` and
-- `new_string_utf`, and the calls that reach Java.
pub mod Strings
pub mod Hexadecimal
pub mod Secrets
pub mod Arrival
use mobile_chatting_app.Common.{
  ℕ, zero, suc, ◌+◌, ◌-◌, ◌%◌, ◌^◌, Bool, true, false, ◌&&◌, ◌||◌, not, List, [], ◌∷◌, ◌++◌, Option,
  none, some, ◌==◌, if◌then◌else◌, length,
}
use mobile_chatting_app.Common.Bytes.{Bytes, c_str}
use mobile_chatting_app.Common.Decimal.{skip_spaces}
use mobile_chatting_app.Wire.Client.{
  create_message, Parsed, rejected, parsed, overread, parse_message,
}
use mobile_chatting_app.Client.Hex.{strtol}
use mobile_chatting_app.Client.Sha256.{sha256}
use mobile_chatting_app.Client.Crypto.{CryptoUtils, encrypt_aes, decrypt_aes, hex_numbers}
use mobile_chatting_app.Client.Serializer.Requests.{
  serialize_login_request, serialize_register_request, serialize_chat_message,
}
use mobile_chatting_app.Client.Socket.{
  Net, SocketManager, connect, disconnect, start_receive_loop, send_data,
}

abbrev pub Jstring : Type 0
Jstring = Option Bytes

-- The global objects; `none` is a null pointer. `delivered` holds the calls of `onMessageReceived`, the
-- last one at the end. `net` is the network while there is no socket manager.
pub record Globals (G S : Type 0) : Type 0 where
  pub socket_manager : Option (SocketManager S)
  pub protocol_handler : Bool
  pub crypto_utils : Option (CryptoUtils G)
  pub serializer : Bool
  pub jvm : Bool
  pub callback_object : Option ℕ
  pub delivered : List (ℕ × Jstring)
  pub net : S

unfoldable pub jstring_to_string : Jstring → Bytes
jstring_to_string none = []
jstring_to_string (some chars) = c_str chars

unfoldable pub string_to_jstring : (Bytes → Jstring) → Bytes → Jstring
string_to_jstring new_string_utf str = new_string_utf (c_str str)

-- A `uint8_t` from two places of a text, which `std::strtol` reads with spaces and a sign in front.
unfoldable pub byte_of_text : Bytes → ℕ
byte_of_text text = elim (skip_spaces text) [
  | [] ↦ 0
  | c ∷ s ↦
      if c == b'-'
      then (256 - strtol s 0) % 256
      else strtol (if c == b'+' then s else c ∷ s) 0 % 256
]

-- The loop over the text in steps of two; the last place may stand alone.
unfoldable pub bytes_of_hex : Bytes → Bytes
unfolding byte_of_text
bytes_of_hex [] = []
bytes_of_hex (c ∷ []) = byte_of_text (c ∷ []) ∷ []
bytes_of_hex (c ∷ d ∷ s) = byte_of_text (c ∷ d ∷ []) ∷ bytes_of_hex s

-- What the constructors make.
abbrev pub new_socket_manager : {S : Type 0} → S → SocketManager S
new_socket_manager net = record {
  sockfd = none;
  connected = false;
  receiving = false;
  joinable = false;
  looping = false;
  buffered = [];
  net = net;
  accepted = [];
}

abbrev pub new_crypto_utils : {G : Type 0} → G → CryptoUtils G
new_crypto_utils g = record { aes_key = []; iv = []; generator = g }

module _ {G S : Type 0} (draw : G → ℕ × G) (sys : Net S) (new_string_utf : Bytes → Jstring) where
  -- `none` is the use of a null pointer or a read past the end of a buffer.
  unfoldable pub on_data_received : Bool → Bytes → Globals G S → Option (Globals G S)
  unfolding string_to_jstring
  on_data_received has_method message n = if not n.jvm then some n else elim n.callback_object [
    | none ↦ some n
    | some object ↦ if not n.protocol_handler then none else elim (parse_message message) [
      | rejected ↦ some n
      | overread ↦ none
      | parsed header payload ↦ some (
          if has_method
          then record n {
            delivered =
                n.delivered ++ ((header.type, string_to_jstring new_string_utf payload) ∷ []);
          }
          else n)
    ]
  ]

  -- The messages that the thread of the socket hands over, one by one.
  unfoldable pub on_messages : Bool → List Bytes → Globals G S → Option (Globals G S)
  unfolding on_data_received
  on_messages has_method [] n = some n
  on_messages has_method (m ∷ ms) n = elim (on_data_received has_method m n) [
    | none ↦ none
    | some n1 ↦ on_messages has_method ms n1
  ]

  unfoldable pub jni_on_load : Globals G S → Globals G S
  jni_on_load n = record n { jvm = true }

  -- The network after the destructor of the socket manager, which disconnects.
  unfoldable pub net_released : Globals G S → S
  net_released n = elim n.socket_manager [ none ↦ n.net | some s ↦ (disconnect sys s).net ]

  unfoldable pub native_init : G → Globals G S → Globals G S
  unfolding net_released
  native_init g n = record n {
    socket_manager = some (new_socket_manager (net_released n));
    protocol_handler = true;
    crypto_utils = some (new_crypto_utils g);
    serializer = true;
  }

  unfoldable pub native_destroy : Globals G S → Globals G S
  unfolding net_released
  native_destroy n = record n {
    net = net_released n;
    callback_object = none;
    socket_manager = none;
    protocol_handler = false;
    crypto_utils = none;
    serializer = false;
  }

  unfoldable pub native_set_callback : ℕ → Globals G S → Globals G S
  native_set_callback callback n = record n { callback_object = some callback }

  -- `none` is the end of the program by `std::terminate`.
  unfoldable pub native_connect : Jstring → ℕ → Globals G S → Option (Bool × Globals G S)
  unfolding jstring_to_string
  native_connect host port n = elim n.socket_manager [
    | none ↦ some (false, n)
    | some s ↦
        let (connected, s1) = connect sys (jstring_to_string host) port s in
        elim (if connected then start_receive_loop sys s1 else some s1) [
          | none ↦ none
          | some s2 ↦ some (connected, record n { socket_manager = some s2 })
        ]
  ]

  unfoldable pub native_disconnect : Globals G S → Globals G S
  native_disconnect n = elim n.socket_manager [
    | none ↦ n
    | some s ↦ record n { socket_manager = some (disconnect sys s) }
  ]

  unfoldable pub native_is_connected : Globals G S → Bool
  native_is_connected n = elim n.socket_manager [ none ↦ false | some s ↦ s.connected ]

  -- `ts` is the clock of `createMessage`. `none` is the end of the fuel of `sendData`.
  unfoldable pub native_send_message :
      ℕ → Jstring → ℕ → ℕ → Globals G S → Option (Bool × Globals G S)
  unfolding jstring_to_string
  native_send_message message_type payload user_id ts n = elim n.socket_manager [
    | none ↦ some (false, n)
    | some s ↦
        let message = create_message (message_type % 256) (jstring_to_string payload) user_id ts in
        if not n.protocol_handler
        then some (false, n)
        else elim (send_data sys (length message) message s) [
          | none ↦ none
          | some (sent, s1) ↦ some (sent, record n { socket_manager = some s1 })
        ]
  ]

  unfoldable pub native_encrypt : Jstring → Jstring → Globals G S → Jstring × Globals G S
  unfolding jstring_to_string string_to_jstring
  native_encrypt text key n = elim n.crypto_utils [
    | none ↦ (none, n)
    | some u ↦
        let (encrypted, u1) = encrypt_aes draw (jstring_to_string text) (jstring_to_string key) u in
        (
          string_to_jstring new_string_utf (hex_numbers 2 encrypted),
          record n { crypto_utils = some u1 },
        )
  ]

  unfoldable pub native_decrypt : Jstring → Jstring → Globals G S → Jstring × Globals G S
  unfolding jstring_to_string string_to_jstring bytes_of_hex
  native_decrypt encrypted_hex key n = elim n.crypto_utils [
    | none ↦ (none, n)
    | some u ↦
        let encrypted = bytes_of_hex (jstring_to_string encrypted_hex) in
        let (decrypted, u1) = decrypt_aes draw encrypted (jstring_to_string key) u in
        (string_to_jstring new_string_utf decrypted, record n { crypto_utils = some u1 })
  ]

  unfoldable pub native_sha256 : Jstring → Globals G S → Jstring
  unfolding jstring_to_string string_to_jstring
  native_sha256 text n = elim n.crypto_utils [
    | none ↦ none
    | some _ ↦ string_to_jstring new_string_utf (sha256 (jstring_to_string text))
  ]

  unfoldable pub native_serialize_login : Jstring → Jstring → Globals G S → Jstring
  unfolding jstring_to_string string_to_jstring
  native_serialize_login username password n =
      if n.serializer
      then string_to_jstring new_string_utf
          (serialize_login_request (jstring_to_string username) (jstring_to_string password))
      else none

  unfoldable pub native_serialize_register : Jstring → Jstring → Jstring → Globals G S → Jstring
  unfolding jstring_to_string string_to_jstring
  native_serialize_register username password email n =
      if n.serializer
      then string_to_jstring new_string_utf (
          serialize_register_request (jstring_to_string username) (jstring_to_string password)
            (jstring_to_string email))
      else none

  -- The recipient is an `int` that becomes a `uint32_t`.
  unfoldable pub native_serialize_chat_message : ℕ → Jstring → Globals G S → Jstring
  unfolding jstring_to_string string_to_jstring
  native_serialize_chat_message recipient_id message n =
      if n.serializer
      then string_to_jstring new_string_utf
          (serialize_chat_message recipient_id (jstring_to_string message))
      else none
