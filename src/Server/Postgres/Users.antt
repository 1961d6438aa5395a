-- ===== src/Server/Postgres/Users.antt =====
-- USER OPERATIONS of server-cpp/src/persistence_pg.cpp.
use mobile_chatting_app.Common.{ℕ, Bool, List, [], Option, none, some, if◌then◌else◌, ◌==◌, nat_eq}
use mobile_chatting_app.Common.Bytes.{Bytes, codes}
use mobile_chatting_app.Common.Decimal.{to_string_int}
use mobile_chatting_app.Server.Data.{User}
use mobile_chatting_app.Server.Postgres.{
  Libpq, Sql, case_result, pure, ◌>>=◌, ◌<>◌, execute, escape_string, text_at, int_at, long_at,
  bool_at, select, log_activity, logged,
}

-- The texts are escaped.
abbrev pub new_user_query : Bytes → Bytes → Bytes → Bytes
new_user_query name password number =
    codes "INSERT INTO users (username, password_hash, phone, is_online) VALUES ('"
    <> name
    <> codes "', '"
    <> password
    <> codes "', '"
    <> number
    <> codes "', FALSE) RETURNING id"

module _ {C R : Type 0} (pq : Libpq C R) where
  -- The row `i` of a query for users; `socket_fd` is not set.
  unfoldable pub user_row : R → ℕ → Sql C User
  user_row r i = do
    id ← int_at pq r i 0
    username ← text_at pq r i 1
    password_hash ← text_at pq r i 2
    phone ← text_at pq r i 3
    is_online ← bool_at pq r i 4
    last_seen ← if pq.getisnull r i 5 then pure 0 else long_at pq r i 5
    pure (record {
      id = id;
      username = username;
      password_hash = password_hash;
      phone = phone;
      socket_fd = pq.indeterminate;
      is_online = is_online;
      last_seen = last_seen;
    })

  -- The first row of a query, or `none` where it fails or finds nothing.
  unfoldable pub select_user : Bytes → Sql C (Option User)
  select_user query = do
    res ← execute pq query
    case_result res (pure none)
        (λ r. if pq.ntuples r == 0 then pure none else (do u ← user_row r 0; pure (some u)))

  -- `none` is the result false.
  unfoldable pub create_user : Bytes → Bytes → Bytes → Sql C (Option ℕ)
  create_user username password_hash phone = do
    name ← escape_string pq username
    password ← escape_string pq password_hash
    number ← escape_string pq phone
    res ← execute pq (new_user_query name password number)
    case_result res (pure none) (λ r. do
      id ← int_at pq r 0 0
      _ ← log_activity pq (codes "USER_REGISTER") id 0 (codes "User registered: " <> username)
      pure (some id))

  unfoldable pub get_user_by_username : Bytes → Sql C (Option User)
  get_user_by_username username = do
    name ← escape_string pq username
    select_user (
        codes
          "SELECT id, username, password_hash, phone, is_online, last_seen FROM users WHERE username = '"
        <> name
        <> codes "'")

  unfoldable pub get_user_by_id : ℕ → Sql C (Option User)
  get_user_by_id user_id = select_user (
      codes "SELECT id, username, password_hash, phone, is_online, last_seen FROM users WHERE id = "
      <> to_string_int user_id)

  unfoldable pub update_user_online_status : ℕ → Bool → Sql C Bool
  update_user_online_status user_id is_online =
      logged pq
        (codes "UPDATE users SET is_online = "
          <> (if is_online then codes "TRUE" else codes "FALSE")
          <> codes ", last_seen = (EXTRACT(EPOCH FROM NOW()) * 1000)::BIGINT WHERE id = "
          <> to_string_int user_id)
        (if is_online then codes "USER_ONLINE" else codes "USER_OFFLINE") user_id 0 []

  unfoldable pub get_all_users : Sql C (List User)
  get_all_users =
      select pq
        (codes
          "SELECT id, username, password_hash, phone, is_online, last_seen FROM users ORDER BY username")
        user_row
