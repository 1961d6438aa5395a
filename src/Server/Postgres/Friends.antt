-- ===== src/Server/Postgres/Friends.antt =====
-- FRIEND OPERATIONS and FRIEND REQUEST OPERATIONS of server-cpp/src/persistence_pg.cpp.
use mobile_chatting_app.Common.{ℕ, Bool, true, false, List, [], if◌then◌else◌, nat_eq}
use mobile_chatting_app.Common.Bytes.{Bytes, codes}
use mobile_chatting_app.Common.Decimal.{to_string_int}
use mobile_chatting_app.Server.Handlers.Names.{int_leb}
use mobile_chatting_app.Server.Data.{User, FriendRequest}
use mobile_chatting_app.Server.Postgres.{
  Libpq, Sql, pure, ◌>>=◌, ◌<>◌, text_at, int_at, long_at, select, command, exists_row,
  log_activity, logged, step, commit,
}
use mobile_chatting_app.Server.Postgres.Users.{user_row}

-- "Canonical ordering": the smaller id, and the larger one.
abbrev pub lower : ℕ → ℕ → ℕ
lower a b = if int_leb a b then a else b

abbrev pub upper : ℕ → ℕ → ℕ
upper a b = if int_leb a b then b else a

-- The request of one user to another.
unfoldable pub delete_request : ℕ → ℕ → Bytes
delete_request from to =
    codes "DELETE FROM friend_requests WHERE from_user_id = "
    <> to_string_int from
    <> codes " AND to_user_id = "
    <> to_string_int to

abbrev pub pending_query : ℕ → Bytes
pending_query user_id =
    codes
      "SELECT id, from_user_id, to_user_id, status, (EXTRACT(EPOCH FROM created_at) * 1000)::BIGINT FROM friend_requests WHERE to_user_id = "
    <> to_string_int user_id
    <> codes " AND status = 'PENDING' ORDER BY created_at DESC"

module _ {C R : Type 0} (pq : Libpq C R) where
  unfoldable pub add_friend : ℕ → ℕ → Sql C Bool
  add_friend a b =
      logged pq
        (codes "INSERT INTO friends (user_id_1, user_id_2) VALUES ("
          <> to_string_int (lower a b)
          <> codes ", "
          <> to_string_int (upper a b)
          <> codes ") ON CONFLICT DO NOTHING")
        (codes "FRIEND_ADD") (lower a b) (upper a b) []

  unfoldable pub remove_friend : ℕ → ℕ → Sql C Bool
  remove_friend a b =
      logged pq
        (codes "DELETE FROM friends WHERE user_id_1 = "
          <> to_string_int (lower a b)
          <> codes " AND user_id_2 = "
          <> to_string_int (upper a b))
        (codes "FRIEND_REMOVE") (lower a b) (upper a b) []

  unfoldable pub are_friends : ℕ → ℕ → Sql C Bool
  are_friends a b = exists_row pq (
      codes "SELECT 1 FROM friends WHERE user_id_1 = "
      <> to_string_int (lower a b)
      <> codes " AND user_id_2 = "
      <> to_string_int (upper a b))

  unfoldable pub get_friends : ℕ → Sql C (List User)
  get_friends user_id =
      select pq
        (codes
            "SELECT u.id, u.username, u.password_hash, u.phone, u.is_online, u.last_seen FROM v_user_friends vuf JOIN users u ON vuf.friend_id = u.id WHERE vuf.user_id = "
          <> to_string_int user_id
          <> codes " ORDER BY u.username")
        (user_row pq)

  unfoldable pub send_friend_request : ℕ → ℕ → Sql C Bool
  send_friend_request from to =
      logged pq
        (codes "INSERT INTO friend_requests (from_user_id, to_user_id, status) VALUES ("
          <> to_string_int from
          <> codes ", "
          <> to_string_int to
          <> codes
              ", 'PENDING') ON CONFLICT (from_user_id, to_user_id) DO UPDATE SET status = 'PENDING', updated_at = NOW()")
        (codes "FRIEND_REQUEST_SEND") from to []

  unfoldable pub accept_friend_request : ℕ → ℕ → Sql C Bool
  accept_friend_request from to = do
    begun ← command pq (codes "BEGIN")
    if begun
        then step pq (add_friend from to) false (
            step pq (command pq (delete_request from to)) false
              (commit pq true false (log_activity pq (codes "FRIEND_REQUEST_ACCEPT") to from [])))
        else pure false

  unfoldable pub decline_friend_request : ℕ → ℕ → Sql C Bool
  decline_friend_request from to =
      logged pq (delete_request from to) (codes "FRIEND_REQUEST_DECLINE") to from []

  unfoldable pub request_row : R → ℕ → Sql C FriendRequest
  request_row r i = do
    id ← int_at pq r i 0
    from ← int_at pq r i 1
    to ← int_at pq r i 2
    status ← text_at pq r i 3
    timestamp ← long_at pq r i 4
    pure (record {
      id = id;
      from_user_id = from;
      to_user_id = to;
      status = status;
      timestamp = timestamp;
    })

  unfoldable pub get_pending_requests : ℕ → Sql C (List FriendRequest)
  get_pending_requests user_id = select pq (pending_query user_id) request_row

  unfoldable pub has_pending_request : ℕ → ℕ → Sql C Bool
  has_pending_request from to = exists_row pq (
      codes "SELECT 1 FROM friend_requests WHERE from_user_id = "
      <> to_string_int from
      <> codes " AND to_user_id = "
      <> to_string_int to
      <> codes " AND status = 'PENDING'")
