-- ===== src/Server/Postgres/Messages.antt =====
-- MESSAGE OPERATIONS and GROUP MESSAGE OPERATIONS of server-cpp/src/persistence_pg.cpp.
use mobile_chatting_app.Common.{ℕ, Bool, List, if◌then◌else◌, ◌==◌, nat_eq}
use mathlib.Core.List.{reverse}
use mobile_chatting_app.Common.Bytes.{Bytes, codes}
use mobile_chatting_app.Common.Decimal.{to_string_long, to_string_int}
use mobile_chatting_app.Server.Data.{Message, GroupMessage}
use mobile_chatting_app.Server.Postgres.{
  Libpq, Sql, case_result, pure, ◌>>=◌, ◌<>◌, execute, escape_string, text_at, int_at, long_at,
  bool_at, select, command,
}

-- The condition that a message is between the two users.
unfoldable pub between : ℕ → ℕ → Bytes
between a b =
    codes "(from_user_id = "
    <> to_string_int a
    <> codes " AND to_user_id = "
    <> to_string_int b
    <> codes ") OR (from_user_id = "
    <> to_string_int b
    <> codes " AND to_user_id = "
    <> to_string_int a
    <> codes ")"

abbrev pub group_messages_query : ℕ → ℕ → Bytes
group_messages_query group_id limit =
    codes "SELECT id, group_id, user_id, content, timestamp FROM group_messages WHERE group_id = "
    <> to_string_int group_id
    <> codes " ORDER BY timestamp DESC LIMIT "
    <> to_string_int limit

module _ {C R : Type 0} (pq : Libpq C R) where
  unfoldable pub save_message : ℕ → ℕ → Bytes → ℕ → Sql C Bool
  save_message from to content timestamp = do
    text ← escape_string pq content
    command pq (
        codes
          "INSERT INTO messages (from_user_id, to_user_id, content, timestamp, is_read) VALUES ("
        <> to_string_int from
        <> codes ", "
        <> to_string_int to
        <> codes ", '"
        <> text
        <> codes "', "
        <> to_string_long timestamp
        <> codes ", FALSE)")

  unfoldable pub message_row : R → ℕ → Sql C Message
  message_row r i = do
    id ← int_at pq r i 0
    from ← int_at pq r i 1
    to ← int_at pq r i 2
    content ← text_at pq r i 3
    timestamp ← long_at pq r i 4
    is_read ← bool_at pq r i 5
    pure (record {
      id = id;
      from_user_id = from;
      to_user_id = to;
      content = content;
      timestamp = timestamp;
      is_read = is_read;
    })

  unfoldable pub conversation_query : ℕ → ℕ → ℕ → Bytes
  conversation_query a b limit =
      codes "SELECT id, from_user_id, to_user_id, content, timestamp, is_read FROM messages WHERE "
      <> between a b
      <> codes " ORDER BY timestamp DESC LIMIT "
      <> to_string_int limit

  -- "Reverse to get chronological order"
  unfoldable pub get_conversation : ℕ → ℕ → ℕ → Sql C (List Message)
  get_conversation a b limit = do
    messages ← select pq (conversation_query a b limit) message_row
    pure (reverse messages)

  unfoldable pub mark_messages_read : ℕ → ℕ → Sql C Bool
  mark_messages_read to from = command pq (
      codes "UPDATE messages SET is_read = TRUE WHERE to_user_id = "
      <> to_string_int to
      <> codes " AND from_user_id = "
      <> to_string_int from)

  unfoldable pub get_unread_count : ℕ → Sql C ℕ
  get_unread_count user_id = do
    res ← execute pq (
        codes "SELECT COUNT(*) FROM messages WHERE to_user_id = "
        <> to_string_int user_id
        <> codes " AND is_read = FALSE")
    case_result res (pure 0) (λ r. if pq.ntuples r == 0 then pure 0 else int_at pq r 0 0)

  unfoldable pub delete_conversation : ℕ → ℕ → Sql C Bool
  delete_conversation a b = command pq (codes "DELETE FROM messages WHERE " <> between a b)

  unfoldable pub save_group_message : ℕ → ℕ → Bytes → ℕ → Sql C Bool
  save_group_message group_id user_id content timestamp = do
    text ← escape_string pq content
    command pq (
        codes "INSERT INTO group_messages (group_id, user_id, content, timestamp) VALUES ("
        <> to_string_int group_id
        <> codes ", "
        <> to_string_int user_id
        <> codes ", '"
        <> text
        <> codes "', "
        <> to_string_long timestamp
        <> codes ")")

  unfoldable pub group_message_row : R → ℕ → Sql C GroupMessage
  group_message_row r i = do
    id ← int_at pq r i 0
    group_id ← int_at pq r i 1
    user_id ← int_at pq r i 2
    content ← text_at pq r i 3
    timestamp ← long_at pq r i 4
    pure (record {
      id = id;
      group_id = group_id;
      user_id = user_id;
      content = content;
      timestamp = timestamp;
    })

  unfoldable pub get_group_messages : ℕ → ℕ → Sql C (List GroupMessage)
  get_group_messages group_id limit = do
    messages ← select pq (group_messages_query group_id limit) group_message_row
    pure (reverse messages)
