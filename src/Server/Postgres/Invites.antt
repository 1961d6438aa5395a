-- ===== src/Server/Postgres/Invites.antt =====
-- GROUP INVITE OPERATIONS of server-cpp/src/persistence_pg.cpp.
use mobile_chatting_app.Common.{ℕ, Bool, false, List, if◌then◌else◌, ◌==◌, nat_eq}
use mobile_chatting_app.Common.Bytes.{Bytes, codes}
use mobile_chatting_app.Common.Decimal.{to_string_int}
use mobile_chatting_app.Server.Data.{GroupInvite}
use mobile_chatting_app.Server.Postgres.{
  Libpq, Sql, case_result, pure, ◌>>=◌, ◌<>◌, execute, text_at, int_at, long_at, select, command,
  logged,
}
use mobile_chatting_app.Server.Postgres.Groups.{group_details}

-- The invitation of a user to a group.
abbrev pub of_invite : ℕ → ℕ → Bytes
of_invite group_id to =
    codes " WHERE group_id = "
    <> to_string_int group_id
    <> codes " AND to_user_id = "
    <> to_string_int to

abbrev pub invites_query : ℕ → Bytes
invites_query user_id =
    codes
      "SELECT id, group_id, from_user_id, to_user_id, status, (EXTRACT(EPOCH FROM created_at) * 1000)::BIGINT FROM group_invites WHERE to_user_id = "
    <> to_string_int user_id
    <> codes " AND status = 'PENDING' ORDER BY created_at DESC"

module _ {C R : Type 0} (pq : Libpq C R) where
  unfoldable pub create_group_invite : ℕ → ℕ → ℕ → Sql C Bool
  create_group_invite group_id from to = do
    res ← execute pq (codes "SELECT id FROM group_invites" <> of_invite group_id to)
    case_result res (pure false) (λ r.
        logged pq
          (if pq.ntuples r == 0
            then codes
                "INSERT INTO group_invites (group_id, from_user_id, to_user_id, status) VALUES ("
              <> to_string_int group_id
              <> codes ", "
              <> to_string_int from
              <> codes ", "
              <> to_string_int to
              <> codes ", 'PENDING')"
            else codes "UPDATE group_invites SET status = 'PENDING', created_at = NOW()"
              <> of_invite group_id to)
          (codes "GROUP_INVITE_CREATE") from to (group_details group_id))

  unfoldable pub invite_row : R → ℕ → Sql C GroupInvite
  invite_row r i = do
    id ← int_at pq r i 0
    group_id ← int_at pq r i 1
    from ← int_at pq r i 2
    to ← int_at pq r i 3
    status ← text_at pq r i 4
    timestamp ← long_at pq r i 5
    pure (record {
      id = id;
      group_id = group_id;
      from_user_id = from;
      to_user_id = to;
      status = status;
      timestamp = timestamp;
    })

  unfoldable pub get_pending_group_invites : ℕ → Sql C (List GroupInvite)
  get_pending_group_invites user_id = select pq (invites_query user_id) invite_row

  unfoldable pub delete_group_invite : ℕ → ℕ → Sql C Bool
  delete_group_invite group_id to =
      command pq (codes "DELETE FROM group_invites" <> of_invite group_id to)
