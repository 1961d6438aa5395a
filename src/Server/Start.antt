-- ===== src/Server/Start.antt =====
-- server-cpp/src/main.cpp up to the socket of the server, and `load_users` of
-- server-cpp/src/persistence.cpp: how the globals get their first values.
pub mod Users
pub mod File
pub mod Friends
use mobile_chatting_app.Common.{
  ℕ, zero, suc, ◌%◌, ◌^◌, ◌+◌, Bool, true, false, not, List, [], ◌∷◌, ◌++◌, Option, none, some,
  if◌then◌else◌, nat_eq, Map, lookup, insert, has,
}
use mobile_chatting_app.Common.Bytes.{Bytes, codes, bytes_eq}
use mobile_chatting_app.Common.Decimal.{stoi}
use mobile_chatting_app.Server.Data.{User, Group, ServerState, minus_one}
use mobile_chatting_app.Server.Handlers.Names.{int_leb, int_suc, set_friend}
use mobile_chatting_app.Server.Postgres.{Libpq, Pg, Sql, pure, ◌>>=◌, ◌>>◌, need, connect}
use mobile_chatting_app.Server.Postgres.Users.{get_all_users}
use mobile_chatting_app.Server.Postgres.Friends.{get_friends}
use mobile_chatting_app.Server.Postgres.Groups.{get_user_groups, get_group_members, is_group_admin}
use mobile_chatting_app.Server.Start.Users.{load_users}

-- The globals before `main`.
abbrev pub no_globals : ServerState
no_globals = record {
  users_by_name = [];
  users_by_id = [];
  next_user_id = 1;
  friends = [];
  friend_requests = [];
  online_clients = [];
  groups = [];
  next_group_id = 1;
  offline_messages = [];
}

-- `std::max(1, std::stoi(text))` for a variable of the environment that is set.
unfoldable pub at_least_one : ℕ → Option Bytes → Option ℕ
at_least_one default none = some default
at_least_one default (some text) = elim (stoi text) [
  | none ↦ none
  | some n ↦ some (if int_leb n 1 then 1 else n)
]

module _ {C R : Type 0} (pq : Libpq C R) where
  -- The attempts to connect; the pauses between them change nothing.
  unfoldable pub connect_loop : ℕ → Sql C Bool
  connect_loop zero = pure false
  connect_loop (suc n) = do connected ← connect pq; if connected then pure true else connect_loop n

  -- The friends of a user who was loaded.
  unfoldable pub enter_friends : ℕ → List User → ServerState → ServerState
  enter_friends uid [] s = s
  enter_friends uid (f ∷ friends) s = enter_friends uid friends (set_friend uid f.id s)

  -- The users in memory, and the highest id; `blank` is a `User` of which no member is set.
  unfoldable pub enter_users : User → List User → ℕ → ServerState → Sql C (ServerState × ℕ)
  enter_users blank [] max_id s = pure (s, max_id)
  enter_users blank (user ∷ users) max_id s =
      let suser : User = record blank {
        id = user.id;
        username = user.username;
        password_hash = user.password_hash;
        phone = user.phone;
        socket_fd = minus_one;
      } in
      let entered : ServerState = record s {
        users_by_id = insert user.id suser s.users_by_id;
        users_by_name = insert user.username suser s.users_by_name;
      } in
      do
        friends ← get_friends pq user.id
        enter_users blank users (if int_leb user.id max_id then max_id else user.id)
            (enter_friends user.id friends entered)

  -- The members of a group with their rights.
  unfoldable pub enter_members : ℕ → List User → Group → Sql C Group
  enter_members gid [] g = pure g
  enter_members gid (m ∷ members) g = do
    admin ← is_group_admin pq gid m.id
    enter_members gid members
        (record g { members = insert m.id true g.members; admins = insert m.id admin g.admins })

  unfoldable pub enter_groups : List Group → ServerState → Sql C ServerState
  enter_groups [] s = pure s
  enter_groups (g ∷ groups) s = if has g.id s.groups then enter_groups groups s else (do
    members ← get_group_members pq g.id
    dg ← enter_members g.id members (record {
      id = g.id;
      name = g.name;
      owner_id = g.owner_id;
      members = [];
      admins = [];
      member_nicknames = [];
    })
    enter_groups groups (record s {
      groups = insert g.id dg s.groups;
      next_group_id = if int_leb s.next_group_id g.id then int_suc g.id else s.next_group_id;
    }))

  unfoldable pub enter_groups_of : List User → ServerState → Sql C ServerState
  enter_groups_of [] s = pure s
  enter_groups_of (user ∷ users) s = do
    groups ← get_user_groups pq user.id
    s1 ← enter_groups groups s
    enter_groups_of users s1

  unfoldable pub load_database : User → ServerState → Sql C ServerState
  load_database blank s = do
    all_users ← get_all_users pq
    (s1, max_id) ← enter_users blank all_users 0 s
    enter_groups_of all_users (record s1 { next_user_id = int_suc max_id })

  -- The globals that the server starts with, and whether it has the database; `file` is the file of
  -- users. An exception ends the server.
  unfoldable pub start :
      Option Bytes → Option Bytes → Option Bytes → User → Sql C (ServerState × Bool)
  start db_connect_retries db_connect_retry_delay file blank = do
    retries ← need (at_least_one 10 db_connect_retries)
    delay ← need (at_least_one 2 db_connect_retry_delay)
    connected ← connect_loop retries
    if connected then (do s ← load_database blank no_globals; pure (s, true)) else (do
      (s, next_id) ← need (load_users file no_globals 1)
      pure (record s { next_user_id = next_id }, false))
