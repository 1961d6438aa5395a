-- ===== src/Client/Serializer/Delivery.antt =====
-- The payloads of the client and of the server, each read by the other side
-- (app/src/main/cpp/message_serializer.cpp, server-cpp/src/message_handler.cpp).
use mobile_chatting_app.Common.{
  ℕ, ◌^◌, ◌≤◌, ◌<◌, ◌≡◌, ◌≢◌, refl, ap, ◌∙◌, Bool, ◌&&◌, true, List, [], ◌∷◌, some, All, Map,
  lookup, insert, arith, find_or, has, ltb,
}
use mobile_chatting_app.Common.Bytes.{Bytes, codes, Lacks, bytes_eq}
use mobile_chatting_app.Common.Decimal.{
  to_string, to_string_int, stoi, stoul, stoul-to_string, stoul-to_string_int, stoi-to_string,
  to_string-Lacks, to_string_int-Lacks,
}
use mobile_chatting_app.Codec.Kv.{parse_kv, serialize_kv}
use mobile_chatting_app.Codec.RoundTrip.{parse_kv-serialize_kv, IsPlain, insert_all}
use mobile_chatting_app.Server.World.{field}
use mobile_chatting_app.Server.Handlers.Messages.{direct_payload}
use mobile_chatting_app.Server.Handlers.Account.{welcome}
use mobile_chatting_app.Client.Serializer.{put, deserialize}
use mobile_chatting_app.Client.Serializer.Requests.{serialize_chat_message}
use mobile_chatting_app.Client.Serializer.Responses.{
  to_uint32, at, ChatMessage, deserialize_chat_message, LoginResponse, deserialize_login_response,
}
use mobile_chatting_app.Client.Serializer.Agreement.{lookup-deserialize, serialize-serialize_kv}

-- What the client reads from the server's pairs.
lookup-pairs :
    (items : Map Bytes Bytes) (key : Bytes)
    → All IsPlain items
    → lookup key (deserialize (serialize_kv items)) ≡ lookup key (insert_all items [])
lookup-pairs items key h =
    lookup-deserialize (serialize_kv items) key ∙ ap (lookup key) (parse_kv-serialize_kv items h)

-- The server's `int` as the client's `uint32_t`.
to_uint32-to_string_int : (w : ℕ) → w < 2 ^ 32 → to_uint32 (to_string_int w) ≡ some w
unfolding to_uint32
to_uint32-to_string_int w h = rw (to_uint32, stoul-to_string_int w h) (ground arith)

-- The keys of the source hold neither `=` nor `&`.
abbrev is_name : Bytes → Bool
is_name [] = true
is_name (c ∷ s) = ltb b'=' c && is_name s

name_above : (k : Bytes) (d : ℕ) → d ≤ b'=' → is_name k ≡ true → Lacks d k
name_above [] d b h = tt
name_above (c ∷ k) d b h =
    (name_head c (is_name k) d b h, name_above k d b (name_tail c (is_name k) h))
  where
    name_head : (c : ℕ) (r : Bool) (d : ℕ) → d ≤ b'=' → (ltb b'=' c && r) ≡ true → c ≢ d
    name_head c r d b h = ground arith

    name_tail : (c : ℕ) (r : Bool) → (ltb b'=' c && r) ≡ true → r ≡ true
    name_tail c r h = ground arith

name-IsPlain : (k v : Bytes) → is_name k ≡ true → Lacks b'&' v → IsPlain (k, v)
name-IsPlain k v h l = (name_above k b'=' (omega arith) h, name_above k b'&' (omega arith) h, l)

read_chat :
    (payload sender text time : Bytes) (id t : ℕ) (out : ChatMessage)
    → lookup (codes "senderId") (deserialize payload) ≡ some sender
    → lookup (codes "message") (deserialize payload) ≡ some text
    → lookup (codes "timestamp") (deserialize payload) ≡ some time
    → to_uint32 sender ≡ some id
    → stoul time ≡ some t
    → deserialize_chat_message payload out
      ≡ some (true, record { sender_id = id; message = text; timestamp = t })
unfolding deserialize_chat_message
read_chat payload sender text time id t out a b c d e =
    rw (has, find_or, at, a, b, d, has, find_or, at, c, e, b) refl

-- A direct message that the server passes on is read by the client with its sender, its text and its
-- time, if the text holds no `&`.
pub deserialize_chat_message-direct_payload :
    (sender : ℕ) (text : Bytes) (seconds : ℕ) (out : ChatMessage)
    → sender < 2 ^ 32
    → Lacks b'&' text
    → seconds < 2 ^ 64
    → deserialize_chat_message (direct_payload sender text seconds) out
      ≡ some (true, record { sender_id = sender; message = text; timestamp = seconds })
unfolding direct_payload insert lookup
deserialize_chat_message-direct_payload sender text seconds out h k l =
    let items : List (Bytes × Bytes) =
      (codes "senderId", to_string_int sender)
      ∷ (codes "message", text)
      ∷ (codes "timestamp", to_string seconds)
      ∷ [] in
    let plain : All IsPlain items = (
      name-IsPlain (codes "senderId") (to_string_int sender) refl
          (to_string_int-Lacks b'&' sender (omega arith)),
      (
        name-IsPlain (codes "message") text refl k,
        (
          name-IsPlain (codes "timestamp") (to_string seconds) refl
              (to_string-Lacks b'&' seconds (omega arith)),
          tt,
        ),
      ),
    ) in
    read_chat (direct_payload sender text seconds) (to_string_int sender) text (to_string seconds)
      sender seconds out (lookup-pairs items (codes "senderId") plain)
      (lookup-pairs items (codes "message") plain) (lookup-pairs items (codes "timestamp") plain)
      (to_uint32-to_string_int sender h) (stoul-to_string seconds l)

read_login :
    (payload id token : Bytes) (n : ℕ) (out : LoginResponse)
    → lookup (codes "success") (deserialize payload) ≡ some (codes "true")
    → lookup (codes "userId") (deserialize payload) ≡ some id
    → lookup (codes "token") (deserialize payload) ≡ some token
    → to_uint32 id ≡ some n
    → deserialize_login_response payload out
      ≡ some (true, record { user_id = n; token = token; success = true })
unfolding deserialize_login_response
read_login payload id token n out a b c d =
    rw (has, find_or, at, a, b, d, has, find_or, at, c, a) refl

-- The answer to a LOGIN that succeeds is read by the client as a success, with the id of the user and
-- the token, if the name holds no `&`.
pub deserialize_login_response-welcome :
    (uid : ℕ) (username : Bytes) (out : LoginResponse)
    → uid < 2 ^ 32
    → Lacks b'&' username
    → deserialize_login_response (welcome uid username) out
      ≡ some (true, record { user_id = uid; token = codes "demo_token"; success = true })
unfolding welcome insert lookup
deserialize_login_response-welcome uid username out h k =
    let items : List (Bytes × Bytes) =
      (codes "success", codes "true")
      ∷ (codes "userId", to_string_int uid)
      ∷ (codes "token", codes "demo_token")
      ∷ (codes "username", username)
      ∷ [] in
    let plain : All IsPlain items = (
      name-IsPlain (codes "success") (codes "true") refl
          (name_above (codes "true") b'&' (omega arith) refl),
      (
        name-IsPlain (codes "userId") (to_string_int uid) refl
            (to_string_int-Lacks b'&' uid (omega arith)),
        (
          name-IsPlain (codes "token") (codes "demo_token") refl
              (name_above (codes "demo_token") b'&' (omega arith) refl),
          (name-IsPlain (codes "username") username refl k, tt),
        ),
      ),
    ) in
    read_login (welcome uid username) (to_string_int uid) (codes "demo_token") uid out
      (lookup-pairs items (codes "success") plain) (lookup-pairs items (codes "userId") plain)
      (lookup-pairs items (codes "token") plain) (to_uint32-to_string_int uid h)

-- The request of the client for a direct message is read by the server with its recipient and its
-- text, if the text holds no `&`.
pub parse_kv-serialize_chat_message :
    (recipient : ℕ) (text : Bytes)
    → recipient < 2 ^ 31
    → Lacks b'&' text
    → (stoi (field (codes "recipientId") (parse_kv (serialize_chat_message recipient text)))
        ≡ some recipient)
      × (field (codes "message") (parse_kv (serialize_chat_message recipient text)) ≡ text)
unfolding serialize_chat_message put insert lookup
parse_kv-serialize_chat_message recipient text h k =
    let items : List (Bytes × Bytes) =
      (codes "message", text) ∷ (codes "recipientId", to_string recipient) ∷ [] in
    let plain : All IsPlain items = (
      name-IsPlain (codes "message") text refl k,
      (
        name-IsPlain (codes "recipientId") (to_string recipient) refl
            (to_string-Lacks b'&' recipient (omega arith)),
        tt,
      ),
    ) in
    let read = ap parse_kv (serialize-serialize_kv items) ∙ parse_kv-serialize_kv items plain in
    (
      ap (λ m. stoi (field (codes "recipientId") m)) read ∙ stoi-to_string recipient h,
      ap (λ m. field (codes "message") m) read,
    )
