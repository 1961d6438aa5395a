-- ===== src/Client/Serializer/Chat.antt =====
-- A direct message from one client to another: `serializeChatMessage` and `deserializeChatMessage`
-- (app/src/main/cpp/message_serializer.cpp) with the server's DIRECT_MESSAGE between them.
use mobile_chatting_app.Common.{ℕ, ◌^◌, ◌<◌, ◌≡◌, subst, true, [], ◌∷◌, some}
use mobile_chatting_app.Common.Bytes.{Bytes, codes, Lacks}
use mobile_chatting_app.Server.Protocol.{success, direct_message}
use mobile_chatting_app.Server.Database.{Database}
use mobile_chatting_app.Server.World.{World, Context}
use mobile_chatting_app.Server.Messaging.{
  Returns, Returns-map, IsSent, answered, direct_message-IsSent,
}
use mobile_chatting_app.Server.Handlers.Messages.{direct_payload, handle_direct_message}
use mobile_chatting_app.Client.Serializer.Requests.{serialize_chat_message}
use mobile_chatting_app.Client.Serializer.Responses.{ChatMessage, deserialize_chat_message}
use mobile_chatting_app.Client.Serializer.Delivery.{
  parse_kv-serialize_chat_message, deserialize_chat_message-direct_payload,
}

-- The client reads the payload as the message with this sender, text and time.
abbrev pub IsRead : ℕ → Bytes → ℕ → Bytes → Type 0
IsRead sender text seconds payload =
    (out : ChatMessage)
    → deserialize_chat_message payload out
      ≡ some (true, record { sender_id = sender; message = text; timestamp = seconds })

module _ {D : Type 0} (db : Database D) (c : Context) where
  -- The request of a client for a direct message always succeeds, with and without a database: the
  -- recipient, or the recipient's queue, gets one packet, which the recipient's client reads with the
  -- sender, the text and the time of the server. The text holds no `&`; the numbers fit their types.
  pub chat_message-IsRead :
      (to : ℕ) (text : Bytes) (w : World D)
      → to < 2 ^ 31
      → c.current_user_id < 2 ^ 32
      → c.seconds < 2 ^ 64
      → Lacks b'&' text
      → Returns (handle_direct_message db c (serialize_chat_message to text) w) (λ uid w'.
        (payload : Bytes) × IsSent c
          (to ∷ [])
          direct_message
          payload
          (answered c success (codes "Message sent"))
          w
          w'
        × IsRead c.current_user_id text c.seconds payload)
  chat_message-IsRead to text w h i j k =
      let (number, same) = parse_kv-serialize_chat_message to text h k in
      Returns-map
        {Q = λ uid w'.
          (payload : Bytes) × IsSent c (to ∷ []) direct_message payload
            (answered c success (codes "Message sent")) w w'
          × IsRead c.current_user_id text c.seconds payload}
        (handle_direct_message db c (serialize_chat_message to text) w)
        (λ uid w' (_, sent). (
          direct_payload c.current_user_id text c.seconds,
          subst
              (λ t.
                IsSent c (to ∷ []) direct_message (direct_payload c.current_user_id t c.seconds)
                  (answered c success (codes "Message sent")) w w')
              same sent,
          λ out. deserialize_chat_message-direct_payload c.current_user_id text c.seconds out i k j,
        ))
        (direct_message-IsSent db c (serialize_chat_message to text) to w number)
