-- ===== src/Server/Postgres/Groups.antt =====
-- GROUP OPERATIONS of server-cpp/src/persistence_pg.cpp.
use mobile_chatting_app.Common.{
  ℕ, Bool, false, List, [], ◌∷◌, ◌++◌, Option, none, some, if◌then◌else◌, ◌==◌, Map, insert, nat_eq,
}
use mobile_chatting_app.Common.Bytes.{Bytes, codes}
use mobile_chatting_app.Common.Decimal.{to_string_int}
use mobile_chatting_app.Server.Data.{User, Group}
use mobile_chatting_app.Server.Postgres.{
  Libpq, Sql, case_result, pure, ◌>>=◌, ◌<>◌, execute, escape_string, text_at, int_at, bool_at,
  select, command, exists_row, log_activity, logged, step, commit, roll_back,
}
use mobile_chatting_app.Server.Postgres.Users.{user_row}

-- The details of an entry of the log about a group.
abbrev pub group_details : ℕ → Bytes
group_details group_id = codes "groupId=" ++ to_string_int group_id

-- The row of a member of a group.
abbrev pub of_member : ℕ → ℕ → Bytes
of_member group_id user_id =
    codes " WHERE group_id = "
    <> to_string_int group_id
    <> codes " AND user_id = "
    <> to_string_int user_id

-- The name is escaped.
abbrev pub new_group_query : Bytes → ℕ → Bytes
new_group_query name creator_id =
    codes "INSERT INTO groups (name, creator_id) VALUES ('"
    <> name
    <> codes "', "
    <> to_string_int creator_id
    <> codes ") RETURNING id"

abbrev pub nicknames_query : ℕ → Bytes
nicknames_query group_id =
    codes "SELECT user_id, nickname FROM group_members WHERE group_id = " <> to_string_int group_id

abbrev pub admin_query : ℕ → ℕ → Bytes
admin_query group_id user_id =
    codes "SELECT is_admin FROM group_members" <> of_member group_id user_id

abbrev pub groups_query : ℕ → Bytes
groups_query user_id =
    codes
      "SELECT g.id, g.name, g.creator_id FROM groups g JOIN group_members gm ON g.id = gm.group_id WHERE gm.user_id = "
    <> to_string_int user_id
    <> codes " ORDER BY g.name"

abbrev pub members_query : ℕ → Bytes
members_query group_id =
    codes
      "SELECT u.id, u.username, u.password_hash, u.phone, u.is_online, u.last_seen FROM users u JOIN group_members gm ON u.id = gm.user_id WHERE gm.group_id = "
    <> to_string_int group_id
    <> codes " ORDER BY u.username"

module _ {C R : Type 0} (pq : Libpq C R) where
  unfoldable pub add_group_member : ℕ → ℕ → Sql C Bool
  add_group_member group_id user_id =
      logged pq
        (codes "INSERT INTO group_members (group_id, user_id) VALUES ("
          <> to_string_int group_id
          <> codes ", "
          <> to_string_int user_id
          <> codes ") ON CONFLICT DO NOTHING")
        (codes "GROUP_MEMBER_ADD") user_id 0 (group_details group_id)

  -- `create_group` once the new group has an id, up to the end of the transaction.
  unfoldable pub finish_group : Bytes → ℕ → ℕ → Sql C (Option ℕ)
  finish_group name creator_id group_id = step pq (add_group_member group_id creator_id) none (
      commit pq (some group_id) none
        (log_activity pq (codes "GROUP_CREATE") creator_id 0 (codes "Group: " <> name)))

  -- `none` is the result false.
  unfoldable pub create_group : Bytes → ℕ → Sql C (Option ℕ)
  create_group name creator_id = do
    begun ← command pq (codes "BEGIN")
    if begun
        then (do
          escaped ← escape_string pq name
          res ← execute pq (new_group_query escaped creator_id)
          case_result res (roll_back pq none)
              (λ r. do group_id ← int_at pq r 0 0; finish_group name creator_id group_id))
        else pure none

  unfoldable pub set_group_nickname : ℕ → ℕ → Bytes → Sql C Bool
  set_group_nickname group_id user_id nickname = do
    nick ← escape_string pq nickname
    logged pq
        (codes "UPDATE group_members SET nickname = '"
          <> nick
          <> codes "'"
          <> of_member group_id user_id)
        (codes "GROUP_NICKNAME_SET") user_id 0
        (group_details group_id <> codes " nick=" <> nickname)

  unfoldable pub nickname_row : R → ℕ → Sql C (ℕ × Bytes)
  nickname_row r i = do
    uid ← int_at pq r i 0
    nick ← if pq.getisnull r i 1 then pure [] else text_at pq r i 1
    pure (uid, nick)

  -- `result[uid] = …` for each row.
  unfoldable pub insert_rows : List (ℕ × Bytes) → Map ℕ Bytes → Map ℕ Bytes
  insert_rows [] m = m
  insert_rows ((uid, nick) ∷ rows) m = insert_rows rows (insert uid nick m)

  unfoldable pub get_group_member_nicknames : ℕ → Sql C (Map ℕ Bytes)
  get_group_member_nicknames group_id = do
    rows ← select pq (nicknames_query group_id) nickname_row
    pure (insert_rows rows [])

  unfoldable pub remove_group_member : ℕ → ℕ → Sql C Bool
  remove_group_member group_id user_id =
      logged pq (codes "DELETE FROM group_members" <> of_member group_id user_id)
        (codes "GROUP_MEMBER_REMOVE") user_id 0 (group_details group_id)

  unfoldable pub set_group_admin : ℕ → ℕ → Bool → Sql C Bool
  set_group_admin group_id user_id is_admin = do
    altered ←
        command pq (
          codes "ALTER TABLE group_members ADD COLUMN IF NOT EXISTS is_admin BOOLEAN DEFAULT FALSE")
    if altered
        then command pq (
            codes "UPDATE group_members SET is_admin = "
            <> (if is_admin then codes "TRUE" else codes "FALSE")
            <> of_member group_id user_id)
        else pure false

  unfoldable pub is_group_admin : ℕ → ℕ → Sql C Bool
  is_group_admin group_id user_id = do
    res ← execute pq (admin_query group_id user_id)
    case_result res (pure false) (λ r.
        if pq.ntuples r == 0
        then pure false
        else if pq.getisnull r 0 0
        then pure false
        else bool_at pq r 0 0)

  unfoldable pub group_row : R → ℕ → Sql C Group
  group_row r i = do
    id ← int_at pq r i 0
    name ← text_at pq r i 1
    owner_id ← int_at pq r i 2
    pure (record {
      id = id;
      name = name;
      owner_id = owner_id;
      members = [];
      admins = [];
      member_nicknames = [];
    })

  unfoldable pub get_user_groups : ℕ → Sql C (List Group)
  get_user_groups user_id = select pq (groups_query user_id) group_row

  unfoldable pub get_group_members : ℕ → Sql C (List User)
  get_group_members group_id = select pq (members_query group_id) (user_row pq)

  unfoldable pub is_group_member : ℕ → ℕ → Sql C Bool
  is_group_member group_id user_id =
      exists_row pq (codes "SELECT 1 FROM group_members" <> of_member group_id user_id)

  unfoldable pub rename_group : ℕ → Bytes → Sql C Bool
  rename_group group_id new_name = do
    name ← escape_string pq new_name
    logged pq
        (codes "UPDATE groups SET name = '"
          <> name
          <> codes "' WHERE id = "
          <> to_string_int group_id)
        (codes "GROUP_RENAME") 0 0 (group_details group_id <> codes " name=" <> new_name)
