-- ===== src/Server/Postgres/Columns/Readers.antt =====
-- The methods of `PostgresPersistence` (server-cpp/src/persistence_pg.cpp) that read values of a row do
-- not throw where the columns have their types.
use mobile_chatting_app.Common.{
  ℕ, ◌≡◌, ◌==◌, ◌<◌, refl, Bool, true, false, List, [], ◌∷◌, none, some, if◌then◌else◌, arith,
}
use mobile_chatting_app.Common.Bytes.{Bytes, c_str}
use mobile_chatting_app.Server.Postgres.{
  Libpq, Sql, case_result, pure, ◌>>=◌, execute, escape_string, bool_at, int_at, roll_back,
}
use mobile_chatting_app.Server.Postgres.Users.{user_row, new_user_query, create_user}
use mobile_chatting_app.Server.Postgres.Friends.{request_row, pending_query, get_pending_requests}
use mobile_chatting_app.Server.Postgres.Messages.{
  message_row, conversation_query, get_conversation, group_message_row, group_messages_query,
  get_group_messages,
}
use mobile_chatting_app.Server.Postgres.Groups.{
  finish_group, new_group_query, create_group, nickname_row, nicknames_query,
  get_group_member_nicknames, admin_query, is_group_admin, group_row, groups_query, get_user_groups,
  members_query, get_group_members,
}
use mobile_chatting_app.Server.Postgres.Invites.{
  invite_row, invites_query, get_pending_group_invites,
}
use mobile_chatting_app.Server.Postgres.Total.{
  Never, Never-pure, Never-bind, Never-if, sql, methods, command-Never, add_group_member-Never,
  roll_back-Never, log_activity-Never,
}
use mobile_chatting_app.Server.Postgres.Columns.{
  Column, integer, bigint, bigint_or_null, text, Cells, HasColumns, text_at-Never, int_at-Never,
  long_at-Never, null_or_long-Never, bool_at-Never, execute-Never, select-Never,
}

abbrev pub user_columns : List Column
user_columns = integer ∷ text ∷ text ∷ text ∷ text ∷ bigint_or_null ∷ []

abbrev pub request_columns : List Column
request_columns = integer ∷ integer ∷ integer ∷ text ∷ bigint ∷ []

abbrev pub invite_columns : List Column
invite_columns = integer ∷ integer ∷ integer ∷ integer ∷ text ∷ bigint ∷ []

abbrev pub message_columns : List Column
message_columns = integer ∷ integer ∷ integer ∷ text ∷ bigint ∷ text ∷ []

abbrev pub group_message_columns : List Column
group_message_columns = integer ∷ integer ∷ integer ∷ text ∷ bigint ∷ []

abbrev pub group_columns : List Column
group_columns = integer ∷ text ∷ integer ∷ []

-- What PostgreSQL answers: an `INSERT … RETURNING id` that succeeds has a row with the id, and each row
-- of a query has the columns of its tables.
pub record IsTyped {C R : Type 0} (pq : Libpq C R) : Type 0 where
  pub new_users :
      (name password phone : Bytes) (c : C)
      → let q =
          new_user_query
            (c_str (pq.escape (c_str name) c))
            (c_str (pq.escape (c_str password) c))
            (c_str (pq.escape (c_str phone) c)) in
        pq.succeeded (pq.exec (c_str q) c).0 ≡ true
        → Cells pq (pq.exec (c_str q) c).0 0 0 (integer ∷ [])
  pub new_groups :
      (name : Bytes) (owner : ℕ) (c : C)
      → let q = new_group_query (c_str (pq.escape (c_str name) c)) owner in
        pq.succeeded (pq.exec (c_str q) c).0 ≡ true
        → Cells pq (pq.exec (c_str q) c).0 0 0 (integer ∷ [])
  pub requests : (u : ℕ) → HasColumns pq (pending_query u) request_columns
  pub messages : (a b limit : ℕ) → HasColumns pq (conversation_query pq a b limit) message_columns
  pub nicknames : (g : ℕ) → HasColumns pq (nicknames_query g) (integer ∷ text ∷ [])
  pub admins : (g u : ℕ) → HasColumns pq (admin_query g u) (text ∷ [])
  pub groups : (u : ℕ) → HasColumns pq (groups_query u) group_columns
  pub members : (g : ℕ) → HasColumns pq (members_query g) user_columns
  pub invites : (u : ℕ) → HasColumns pq (invites_query u) invite_columns
  pub group_messages :
      (g limit : ℕ) → HasColumns pq (group_messages_query g limit) group_message_columns

ruleset cells = (sql, text_at-Never, int_at-Never, long_at-Never, null_or_long-Never, bool_at-Never)

module _ {C R : Type 0} (pq : Libpq C R) where
  user_row-Never : (r : R) (i : ℕ) → Cells pq r i 0 user_columns → Never (user_row pq r i)
  unfolding user_row
  user_row-Never r i (id, (name, (password, (phone, (online, (seen, _)))))) = search cells depth 30

  request_row-Never : (r : R) (i : ℕ) → Cells pq r i 0 request_columns → Never (request_row pq r i)
  unfolding request_row
  request_row-Never r i (id, (from, (to, (status, (time, _))))) = search cells depth 30

  invite_row-Never : (r : R) (i : ℕ) → Cells pq r i 0 invite_columns → Never (invite_row pq r i)
  unfolding invite_row
  invite_row-Never r i (id, (group, (from, (to, (status, (time, _)))))) = search cells depth 30

  message_row-Never : (r : R) (i : ℕ) → Cells pq r i 0 message_columns → Never (message_row pq r i)
  unfolding message_row
  message_row-Never r i (id, (from, (to, (content, (time, (seen, _)))))) = search cells depth 30

  group_message_row-Never :
      (r : R) (i : ℕ) → Cells pq r i 0 group_message_columns → Never (group_message_row pq r i)
  unfolding group_message_row
  group_message_row-Never r i (id, (group, (user, (content, (time, _))))) = search cells depth 30

  nickname_row-Never :
      (r : R) (i : ℕ) → Cells pq r i 0 (integer ∷ text ∷ []) → Never (nickname_row pq r i)
  unfolding nickname_row
  nickname_row-Never r i (id, (nick, _)) = search cells depth 30

  group_row-Never : (r : R) (i : ℕ) → Cells pq r i 0 group_columns → Never (group_row pq r i)
  unfolding group_row
  group_row-Never r i (id, (name, (owner, _))) = search cells depth 30

  finish_group-Never : (name : Bytes) (owner g : ℕ) → Never (finish_group pq name owner g)
  unfolding finish_group
  finish_group-Never name owner g = search (methods, add_group_member-Never) depth 30

module _ {C R : Type 0} (pq : Libpq C R) (typed : IsTyped pq) where
  pub get_pending_requests-Never : (u : ℕ) → Never (get_pending_requests pq u)
  unfolding get_pending_requests
  get_pending_requests-Never u =
      select-Never pq (pending_query u) request_columns _ (typed.requests u) (request_row-Never pq)

  pub get_conversation-Never : (a b limit : ℕ) → Never (get_conversation pq a b limit)
  unfolding get_conversation
  get_conversation-Never a b limit =
      Never-bind
        (select-Never pq (conversation_query pq a b limit) message_columns _
          (typed.messages a b limit) (message_row-Never pq))
        (λ rows. Never-pure _)

  pub get_group_messages-Never : (g limit : ℕ) → Never (get_group_messages pq g limit)
  unfolding get_group_messages
  get_group_messages-Never g limit =
      Never-bind
        (select-Never pq (group_messages_query g limit) group_message_columns _
          (typed.group_messages g limit) (group_message_row-Never pq))
        (λ rows. Never-pure _)

  pub get_group_member_nicknames-Never : (g : ℕ) → Never (get_group_member_nicknames pq g)
  unfolding get_group_member_nicknames
  get_group_member_nicknames-Never g =
      Never-bind
        (select-Never pq (nicknames_query g) (integer ∷ text ∷ []) _ (typed.nicknames g)
          (nickname_row-Never pq))
        (λ rows. Never-pure _)

  pub get_user_groups-Never : (u : ℕ) → Never (get_user_groups pq u)
  unfolding get_user_groups
  get_user_groups-Never u =
      select-Never pq (groups_query u) group_columns _ (typed.groups u) (group_row-Never pq)

  pub get_group_members-Never : (g : ℕ) → Never (get_group_members pq g)
  unfolding get_group_members
  get_group_members-Never g =
      select-Never pq (members_query g) user_columns _ (typed.members g) (user_row-Never pq)

  pub get_pending_group_invites-Never : (u : ℕ) → Never (get_pending_group_invites pq u)
  unfolding get_pending_group_invites
  get_pending_group_invites-Never u =
      select-Never pq (invites_query u) invite_columns _ (typed.invites u) (invite_row-Never pq)

  -- The first row is read only if there is one.
  first_admin :
      (n : ℕ) (null : Bool) (m : Sql C Bool)
      → (0 < n → Never m)
      → Never (if n == 0 then pure false else if null then pure false else m)
  first_admin n null m h = go (n == 0) null (λ e. h (ground (arith, e)))
    where
      go :
          (nobody null : Bool)
          → (nobody ≡ false → Never m)
          → Never (if nobody then pure false else if null then pure false else m)
      go true null k = Never-pure false
      go false true k = Never-pure false
      go false false k = k refl

  pub is_group_admin-Never : (g u : ℕ) → Never (is_group_admin pq g u)
  unfolding is_group_admin
  is_group_admin-Never g u = record {
    never = λ s. execute-Never pq (admin_query g u) (pure false) _ s (Never-pure false) (λ e.
        let r = (pq.exec (c_str (admin_query g u)) s.lib).0 in
        first_admin (pq.ntuples r) (pq.getisnull r 0 0) (bool_at pq r 0 0)
          (λ b. bool_at-Never pq r 0 0 (typed.admins g u s.lib 0 e b).0));
  }

  pub create_user-Never : (name password phone : Bytes) → Never (create_user pq name password phone)
  unfolding create_user escape_string ◌>>=◌
  create_user-Never name password phone = record {
    never = λ s. execute-Never pq _ (pure none) _ s (Never-pure none) (λ e.
        Never-bind (int_at-Never pq _ 0 0 (typed.new_users name password phone s.lib e).0)
          (λ id. Never-bind (log_activity-Never pq _ id 0 _) (λ _. Never-pure (some id))));
  }

  new_group-Never :
      (name : Bytes) (owner : ℕ)
      → Never (
          escape_string pq name >>= λ escaped. execute pq (new_group_query escaped owner) >>= λ res.
          case_result res
            (roll_back pq none)
            (λ r. int_at pq r 0 0 >>= λ group_id. finish_group pq name owner group_id))
  unfolding escape_string ◌>>=◌
  new_group-Never name owner = record {
    never = λ s. execute-Never pq _ (roll_back pq none) _ s (roll_back-Never pq none) (λ e.
        Never-bind (int_at-Never pq _ 0 0 (typed.new_groups name owner s.lib e).0)
          (finish_group-Never pq name owner));
  }

  pub create_group-Never : (name : Bytes) (owner : ℕ) → Never (create_group pq name owner)
  unfolding create_group
  create_group-Never name owner =
      Never-bind (command-Never pq _)
        (λ begun. Never-if begun (new_group-Never name owner) (Never-pure none))
