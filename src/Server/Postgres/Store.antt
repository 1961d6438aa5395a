-- ===== src/Server/Postgres/Store.antt =====
-- The methods of `PostgresPersistence` (server-cpp/src/persistence_pg.cpp) behind the interface that
-- the handlers call.
pub mod History
use mobile_chatting_app.Common.{ℕ, ◌≡◌, ◌≢◌, refl, Bool, Option, none, some}
use mobile_chatting_app.Common.Bytes.{Bytes}
use mobile_chatting_app.Server.Database.{Database}
use mobile_chatting_app.Server.Postgres.{Libpq, Pg, Sql}
use mobile_chatting_app.Server.Postgres.Total.{
  Never, update_user_online_status-Never, send_friend_request-Never, accept_friend_request-Never,
  decline_friend_request-Never, has_pending_request-Never, save_message-Never,
  delete_conversation-Never, add_group_member-Never, set_group_nickname-Never,
  remove_group_member-Never, set_group_admin-Never, delete_group_invite-Never,
  is_group_member-Never, rename_group-Never, save_group_message-Never,
}
use mobile_chatting_app.Server.Postgres.Columns.Readers.{
  IsTyped, create_user-Never, get_pending_requests-Never, get_conversation-Never,
  create_group-Never, get_group_member_nicknames-Never, is_group_admin-Never, get_user_groups-Never,
  get_group_members-Never, get_pending_group_invites-Never, get_group_messages-Never,
}
use mobile_chatting_app.Server.Postgres.Users as U
use mobile_chatting_app.Server.Postgres.Friends as F
use mobile_chatting_app.Server.Postgres.Messages as T
use mobile_chatting_app.Server.Postgres.Groups as G
use mobile_chatting_app.Server.Postgres.Invites as I

-- The value of a method that never throws.
abbrev pub value : {A : Type 0} (o : Option A) → o ≢ none → A
value none h = absurd (h refl)
value (some a) h = a

value_lem : {A : Type 0} (o : Option A) (h : o ≢ none) → o ≡ some (value o h)
value_lem none h = absurd (h refl)
value_lem (some a) h = refl

abbrev pub run : {C A : Type 0} (m : Sql C A) → Never m → Pg C → A × Pg C
run m h s = value (m s) (h.never s)

pub run_lem : {C A : Type 0} (m : Sql C A) (h : Never m) (s : Pg C) → m s ≡ some (run m h s)
run_lem m h s = value_lem (m s) (h.never s)

module _ {C R : Type 0} (pq : Libpq C R) (typed : IsTyped pq) where
  -- The database of a server that is connected: each call is the method, which does not throw.
  abbrev pub postgres : Database (Pg C)
  postgres = record {
    create_user = λ name password phone.
        run (U.create_user pq name password phone) (create_user-Never pq typed name password phone);
    update_user_online_status = λ u online.
        run (U.update_user_online_status pq u online) (update_user_online_status-Never pq u online);
    send_friend_request =
        λ a b. run (F.send_friend_request pq a b) (send_friend_request-Never pq a b);
    accept_friend_request =
        λ a b. run (F.accept_friend_request pq a b) (accept_friend_request-Never pq a b);
    decline_friend_request =
        λ a b. run (F.decline_friend_request pq a b) (decline_friend_request-Never pq a b);
    get_pending_requests =
        λ u. run (F.get_pending_requests pq u) (get_pending_requests-Never pq typed u);
    has_pending_request =
        λ a b. run (F.has_pending_request pq a b) (has_pending_request-Never pq a b);
    save_message =
        λ a b text ts. run (T.save_message pq a b text ts) (save_message-Never pq a b text ts);
    get_conversation = λ a b limit.
        run (T.get_conversation pq a b limit) (get_conversation-Never pq typed a b limit);
    delete_conversation =
        λ a b. run (T.delete_conversation pq a b) (delete_conversation-Never pq a b);
    create_group =
        λ name owner. run (G.create_group pq name owner) (create_group-Never pq typed name owner);
    add_group_member = λ g u. run (G.add_group_member pq g u) (add_group_member-Never pq g u);
    set_group_nickname =
        λ g u nick. run (G.set_group_nickname pq g u nick) (set_group_nickname-Never pq g u nick);
    get_group_member_nicknames =
        λ g. run (G.get_group_member_nicknames pq g) (get_group_member_nicknames-Never pq typed g);
    remove_group_member =
        λ g u. run (G.remove_group_member pq g u) (remove_group_member-Never pq g u);
    set_group_admin =
        λ g u admin. run (G.set_group_admin pq g u admin) (set_group_admin-Never pq g u admin);
    is_group_admin = λ g u. run (G.is_group_admin pq g u) (is_group_admin-Never pq typed g u);
    get_user_groups = λ u. run (G.get_user_groups pq u) (get_user_groups-Never pq typed u);
    get_group_members = λ g. run (G.get_group_members pq g) (get_group_members-Never pq typed g);
    get_pending_group_invites =
        λ u. run (I.get_pending_group_invites pq u) (get_pending_group_invites-Never pq typed u);
    delete_group_invite =
        λ g u. run (I.delete_group_invite pq g u) (delete_group_invite-Never pq g u);
    is_group_member = λ g u. run (G.is_group_member pq g u) (is_group_member-Never pq g u);
    rename_group = λ g name. run (G.rename_group pq g name) (rename_group-Never pq g name);
    save_group_message = λ g u text ts.
        run (T.save_group_message pq g u text ts) (save_group_message-Never pq g u text ts);
    get_group_messages = λ g limit.
        run (T.get_group_messages pq g limit) (get_group_messages-Never pq typed g limit);
  }
