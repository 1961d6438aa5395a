-- ===== src/Server/Postgres/Total.antt =====
-- The methods of `PostgresPersistence` (server-cpp/src/persistence_pg.cpp) that read no value of a
-- row never throw.
use mobile_chatting_app.Common.{ℕ, ◌≢◌, refl, Bool, true, false, Option, none, some, if◌then◌else◌}
use mobile_chatting_app.Common.Bytes.{Bytes}
use mobile_chatting_app.Server.Postgres.{
  Libpq, Pg, Sql, case_result, pure, ◌>>=◌, ◌>>◌, execute, escape_string, command, exists_row,
  log_activity, logged, roll_back, step, commit,
}
use mobile_chatting_app.Server.Postgres.Users.{update_user_online_status}
use mobile_chatting_app.Server.Postgres.Friends.{
  add_friend, send_friend_request, accept_friend_request, decline_friend_request,
  has_pending_request,
}
use mobile_chatting_app.Server.Postgres.Messages.{
  save_message, delete_conversation, save_group_message,
}
use mobile_chatting_app.Server.Postgres.Groups.{
  add_group_member, set_group_nickname, remove_group_member, set_group_admin, is_group_member,
  rename_group,
}
use mobile_chatting_app.Server.Postgres.Invites.{delete_group_invite}

-- The method never throws.
pub record Never {C A : Type 0} (m : Sql C A) : Type 0 where
  pub never : (s : Pg C) → m s ≢ none

module _ {C : Type 0} where
  pub Never-pure : {A : Type 0} (a : A) → Never (pure {C = C} a)
  unfolding pure
  Never-pure a = record { never = λ s e. cc }

  pub Never-bind :
      {A B : Type 0} {m : Sql C A} {f : A → Sql C B}
      → Never m
      → ((a : A) → Never (f a))
      → Never (m >>= f)
  unfolding ◌>>=◌
  Never-bind {A = A} {B = B} {m = m} {f = f} h k = record { never = λ s. go (m s) (h.never s) }
    where
      go :
          (r : Option (A × Pg C)) → r ≢ none → (elim r [ none ↦ none | some (a, t) ↦ f a t ]) ≢ none
      go none h = absurd (h refl)
      go (some (a, t)) h = (k a).never t

  pub Never-then : {A B : Type 0} {m : Sql C A} {k : Sql C B} → Never m → Never k → Never (m >> k)
  unfolding ◌>>◌
  Never-then h k = Never-bind h (λ _. k)

  pub Never-if :
      {A : Type 0} (b : Bool) {x y : Sql C A} → Never x → Never y → Never (if b then x else y)
  Never-if true hx hy = hx
  Never-if false hx hy = hy

  pub Never-elim :
      {A R : Type 0} (o : Option R) {x : Sql C A} {f : R → Sql C A}
      → Never x
      → ((r : R) → Never (f r))
      → Never (case_result o x f)
  Never-elim none hx hf = hx
  Never-elim (some r) hx hf = hf r

module _ {C R : Type 0} (pq : Libpq C R) where
  pub Never-execute : (query : Bytes) → Never (execute pq query)
  unfolding execute
  Never-execute query = record { never = λ s e. cc }

  pub Never-escape_string : (str : Bytes) → Never (escape_string pq str)
  unfolding escape_string
  Never-escape_string str = record { never = λ s e. cc }

pub ruleset sql =
    (Never-pure, Never-bind, Never-then, Never-if, Never-elim, Never-execute, Never-escape_string)

module _ {C R : Type 0} (pq : Libpq C R) where
  pub command-Never : (query : Bytes) → Never (command pq query)
  unfolding command
  command-Never query = search sql depth 20

pub ruleset statements = (sql, command-Never)

module _ {C R : Type 0} (pq : Libpq C R) where
  pub exists_row-Never : (query : Bytes) → Never (exists_row pq query)
  unfolding exists_row
  exists_row-Never query = search sql depth 20

  pub log_activity-Never :
      (log_type : Bytes) (user target : ℕ) (details : Bytes)
      → Never (log_activity pq log_type user target details)
  unfolding log_activity
  log_activity-Never log_type user target details = search statements depth 20

  pub logged-Never :
      (query log_type : Bytes) (user target : ℕ) (details : Bytes)
      → Never (logged pq query log_type user target details)
  unfolding logged
  logged-Never query log_type user target details = search (statements, log_activity-Never) depth 20

  pub roll_back-Never : {A : Type 0} (result : A) → Never (roll_back pq result)
  unfolding roll_back
  roll_back-Never result = search statements depth 20

  pub step-Never :
      {A : Type 0} {m : Sql C Bool} (result : A) {next : Sql C A}
      → Never m
      → Never next
      → Never (step pq m result next)
  unfolding step
  step-Never result hm hn = search (statements, roll_back-Never) depth 20

  pub commit-Never :
      {A : Type 0} (good bad : A) {note : Sql C Bool} → Never note → Never (commit pq good bad note)
  unfolding commit
  commit-Never good bad h = search (statements, step-Never) depth 20

pub ruleset methods =
    (statements, exists_row-Never, log_activity-Never, logged-Never, step-Never, commit-Never)

module _ {C R : Type 0} (pq : Libpq C R) where
  pub update_user_online_status-Never :
      (u : ℕ) (online : Bool) → Never (update_user_online_status pq u online)
  unfolding update_user_online_status
  update_user_online_status-Never u online = search methods depth 20

  pub send_friend_request-Never : (a b : ℕ) → Never (send_friend_request pq a b)
  unfolding send_friend_request
  send_friend_request-Never a b = search methods depth 20

  add_friend-Never : (a b : ℕ) → Never (add_friend pq a b)
  unfolding add_friend
  add_friend-Never a b = search methods depth 20

  pub accept_friend_request-Never : (a b : ℕ) → Never (accept_friend_request pq a b)
  unfolding accept_friend_request
  accept_friend_request-Never a b = search (methods, add_friend-Never) depth 20

  pub decline_friend_request-Never : (a b : ℕ) → Never (decline_friend_request pq a b)
  unfolding decline_friend_request
  decline_friend_request-Never a b = search methods depth 20

  pub has_pending_request-Never : (a b : ℕ) → Never (has_pending_request pq a b)
  unfolding has_pending_request
  has_pending_request-Never a b = search methods depth 20

  pub save_message-Never : (a b : ℕ) (text : Bytes) (ts : ℕ) → Never (save_message pq a b text ts)
  unfolding save_message
  save_message-Never a b text ts = search (methods, Never-escape_string) depth 20

  pub delete_conversation-Never : (a b : ℕ) → Never (delete_conversation pq a b)
  unfolding delete_conversation
  delete_conversation-Never a b = search methods depth 20

  pub add_group_member-Never : (g u : ℕ) → Never (add_group_member pq g u)
  unfolding add_group_member
  add_group_member-Never g u = search methods depth 20

  pub set_group_nickname-Never : (g u : ℕ) (nick : Bytes) → Never (set_group_nickname pq g u nick)
  unfolding set_group_nickname
  set_group_nickname-Never g u nick = search methods depth 20

  pub remove_group_member-Never : (g u : ℕ) → Never (remove_group_member pq g u)
  unfolding remove_group_member
  remove_group_member-Never g u = search methods depth 20

  pub set_group_admin-Never : (g u : ℕ) (admin : Bool) → Never (set_group_admin pq g u admin)
  unfolding set_group_admin
  set_group_admin-Never g u admin = search methods depth 20

  pub delete_group_invite-Never : (g u : ℕ) → Never (delete_group_invite pq g u)
  unfolding delete_group_invite
  delete_group_invite-Never g u = search methods depth 20

  pub is_group_member-Never : (g u : ℕ) → Never (is_group_member pq g u)
  unfolding is_group_member
  is_group_member-Never g u = search methods depth 20

  pub rename_group-Never : (g : ℕ) (name : Bytes) → Never (rename_group pq g name)
  unfolding rename_group
  rename_group-Never g name = search methods depth 20

  pub save_group_message-Never :
      (g u : ℕ) (text : Bytes) (ts : ℕ) → Never (save_group_message pq g u text ts)
  unfolding save_group_message
  save_group_message-Never g u text ts = search methods depth 20
