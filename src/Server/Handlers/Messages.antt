-- ===== src/Server/Handlers/Messages.antt =====
-- DIRECT_MESSAGE, GET_CONVERSATION_HISTORY, GET_GROUP_HISTORY and DELETE_CONVERSATION
-- (server-cpp/src/message_handler.cpp).
use mobile_chatting_app.Common.{
  ℕ, ◌+◌, ◌*◌, ◌/◌, Bool, false, ◌||◌, List, [], ◌∷◌, ◌++◌, ◌==◌, if◌then◌else◌, none, some, nat_eq,
  Map, lookup, has, length,
}
use mathlib.Core.List.{reverse}
use mobile_chatting_app.Common.Bytes.{Bytes, codes, bytes_eq}
use mobile_chatting_app.Common.Decimal.{to_string, to_string_int, to_string_long}
use mobile_chatting_app.Codec.Kv.{parse_kv, serialize_kv}
use mobile_chatting_app.Server.Protocol.{success, error, direct_message}
use mobile_chatting_app.Server.Data.{User, Message, GroupMessage}
use mobile_chatting_app.Server.Database.{Database}
use mobile_chatting_app.Server.World.{
  M, pure, ◌>>=◌, ◌>>◌, get, exec, has_db, call, send_message, log_activity, field, to_int, Context,
}
use mobile_chatting_app.Server.Delivery.{deliver}
use mobile_chatting_app.Server.Handlers.Lookup.{Items, numbered}

-- The items of a message of a conversation, numbered from `i`.
unfoldable pub conversation_items : List Message → ℕ → Items
conversation_items [] i = []
conversation_items (m ∷ ms) i =
    (numbered (codes "from") i, to_string_int m.from_user_id)
    ∷ (numbered (codes "to") i, to_string_int m.to_user_id)
    ∷ (numbered (codes "content") i, m.content)
    ∷ (numbered (codes "timestamp") i, to_string_long m.timestamp)
    ∷ conversation_items ms (i + 1)

unfoldable pub group_items : List GroupMessage → ℕ → Items
group_items [] i = []
group_items (m ∷ ms) i =
    (numbered (codes "from") i, to_string_int m.user_id)
    ∷ (numbered (codes "content") i, m.content)
    ∷ (numbered (codes "timestamp") i, to_string_long m.timestamp)
    ∷ group_items ms (i + 1)

-- Some user of the list has the id.
abbrev pub has_id : ℕ → List User → Bool
has_id i [] = false
has_id i (u ∷ us) = u.id == i || has_id i us

-- The text of a direct message as its recipient gets it.
unfoldable pub direct_payload : ℕ → Bytes → ℕ → Bytes
direct_payload sender message seconds = serialize_kv (
    (codes "senderId", to_string_int sender)
    ∷ (codes "message", message)
    ∷ (codes "timestamp", to_string seconds)
    ∷ [])

module _ {D : Type 0} (db : Database D) (c : Context) where
  open c use {fd, current_user_id, seconds}

  abbrev reply : ℕ → Bytes → M D ℕ
  reply type text = do send_message fd type text current_user_id; pure current_user_id

  unfoldable pub handle_direct_message : Bytes → M D ℕ
  handle_direct_message payload =
      let kv = parse_kv payload in
      let message = field (codes "message") kv in
      let timestamp = seconds * 1000 in
      do
        recipient ← to_int (field (codes "recipientId") kv)
        persistent ← has_db
        if persistent
            then (do
              _ ← call (db.save_message current_user_id recipient message timestamp)
              pure tt)
            else pure tt
        exec (
            deliver recipient direct_message
              (direct_payload current_user_id message (timestamp / 1000)) current_user_id)
        log_activity (codes "DIRECT_MESSAGE") current_user_id
            (codes "to_userId=" ++ to_string_int recipient)
        reply success (codes "Message sent")

  -- `kv.count("limit") ? std::stoi(kv["limit"]) : 50`
  abbrev pub limit_of : Map Bytes Bytes → M D ℕ
  limit_of kv = if has (codes "limit") kv then to_int (field (codes "limit") kv) else pure 50

  unfoldable pub handle_get_conversation_history : Bytes → M D ℕ
  handle_get_conversation_history payload =
      let kv = parse_kv payload in
      do
        other ← to_int (field (codes "otherUserId") kv)
        limit ← limit_of kv
        messages ← call (db.get_conversation current_user_id other limit)
        reply success (
            serialize_kv (
              (codes "count", to_string (length messages))
              ∷ conversation_items (reverse messages) 0))

  unfoldable pub handle_get_group_history : Bytes → M D ℕ
  handle_get_group_history payload =
      let kv = parse_kv payload in
      do
        gid ← to_int (field (codes "groupId") kv)
        limit ← limit_of kv
        persistent ← has_db
        is_member ←
            if persistent
            then (do
              members ← call (db.get_group_members gid)
              pure (has_id current_user_id members))
            else (do
              s ← get
              pure (elim (lookup gid s.groups) [
                | none ↦ false
                | some g ↦ has current_user_id g.members
              ]))
        if is_member
            then (do
              messages ← if persistent then call (db.get_group_messages gid limit) else pure []
              reply success (
                  serialize_kv (
                    (codes "groupId", to_string_int gid)
                    ∷ (codes "count", to_string (length messages))
                    ∷ group_items (reverse messages) 0)))
            else reply error (codes "Not in group")

  unfoldable pub handle_delete_conversation : Bytes → M D ℕ
  handle_delete_conversation payload = do
    other ← to_int (field (codes "otherUserId") (parse_kv payload))
    persistent ← has_db
    deleted ← if persistent then call (db.delete_conversation current_user_id other) else pure false
    if deleted
        then (do
          log_activity (codes "DELETE_CONVERSATION") current_user_id
              (codes "with_userId=" ++ to_string_int other)
          reply success (codes "Conversation deleted"))
        else reply error (codes "Failed to delete conversation")
