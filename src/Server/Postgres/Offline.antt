-- ===== src/Server/Postgres/Offline.antt =====
-- OFFLINE MESSAGE OPERATIONS of server-cpp/src/persistence_pg.cpp, which no handler calls.
use mobile_chatting_app.Common.{ℕ, Bool, List, if◌then◌else◌, nat_eq}
use mobile_chatting_app.Common.Bytes.{Bytes, codes}
use mobile_chatting_app.Common.Decimal.{to_string_int}
use mobile_chatting_app.Server.Handlers.Names.{int_leb}
use mobile_chatting_app.Server.Postgres.{
  Libpq, Sql, pure, ◌>>=◌, ◌<>◌, escape_string, text_at, int_at, select, command,
}

module _ {C R : Type 0} (pq : Libpq C R) where
  -- A sender that is not positive is left out.
  unfoldable pub queue_offline_message : ℕ → ℕ → Bytes → ℕ → Sql C Bool
  queue_offline_message to message_type payload from = do
    text ← escape_string pq payload
    command pq (
        codes "INSERT INTO offline_messages (to_user_id, message_type, payload"
        <> (if int_leb from 0 then codes ") VALUES (" else codes ", from_user_id) VALUES (")
        <> to_string_int to
        <> codes ", "
        <> to_string_int message_type
        <> codes ", '"
        <> text
        <> (if int_leb from 0 then codes "')" else codes "', " <> to_string_int from <> codes ")"))

  unfoldable pub offline_row : R → ℕ → Sql C (ℕ × Bytes)
  offline_row r i = do
    message_type ← int_at pq r i 0
    payload ← text_at pq r i 1
    pure (message_type, payload)

  unfoldable pub get_offline_messages : ℕ → Sql C (List (ℕ × Bytes))
  get_offline_messages user_id =
      select pq
        (codes "SELECT message_type, payload FROM offline_messages WHERE to_user_id = "
          <> to_string_int user_id
          <> codes " AND delivered = FALSE ORDER BY created_at")
        offline_row

  unfoldable pub mark_offline_messages_delivered : ℕ → Sql C Bool
  mark_offline_messages_delivered user_id = command pq (
      codes "UPDATE offline_messages SET delivered = TRUE WHERE to_user_id = "
      <> to_string_int user_id)
