-- ===== src/Server/Database.antt =====
-- What the handlers call of `persistence::PostgresPersistence` (server-cpp/src/persistence_pg.h).
-- `D` is the state of the database; each call returns its result and the state after it. That no call
-- throws is assumed here; a method throws only where a column is no number, which the types of the
-- columns exclude (Server.Postgres.Columns.Readers).
use mobile_chatting_app.Common.{ℕ, Bool, List, Option, Map}
use mobile_chatting_app.Common.Bytes.{Bytes}
use mobile_chatting_app.Server.Data.{User, Group, Message, FriendRequest, GroupInvite, GroupMessage}

pub record Database (D : Type 0) : Type 0 where
  pub create_user : Bytes → Bytes → Bytes → D → Option ℕ × D
  pub update_user_online_status : ℕ → Bool → D → Bool × D
  pub send_friend_request : ℕ → ℕ → D → Bool × D
  pub accept_friend_request : ℕ → ℕ → D → Bool × D
  pub decline_friend_request : ℕ → ℕ → D → Bool × D
  pub get_pending_requests : ℕ → D → List FriendRequest × D
  pub has_pending_request : ℕ → ℕ → D → Bool × D
  pub save_message : ℕ → ℕ → Bytes → ℕ → D → Bool × D
  pub get_conversation : ℕ → ℕ → ℕ → D → List Message × D
  pub delete_conversation : ℕ → ℕ → D → Bool × D
  pub create_group : Bytes → ℕ → D → Option ℕ × D
  pub add_group_member : ℕ → ℕ → D → Bool × D
  pub set_group_nickname : ℕ → ℕ → Bytes → D → Bool × D
  pub get_group_member_nicknames : ℕ → D → Map ℕ Bytes × D
  pub remove_group_member : ℕ → ℕ → D → Bool × D
  pub set_group_admin : ℕ → ℕ → Bool → D → Bool × D
  pub is_group_admin : ℕ → ℕ → D → Bool × D
  pub get_user_groups : ℕ → D → List Group × D
  pub get_group_members : ℕ → D → List User × D
  pub get_pending_group_invites : ℕ → D → List GroupInvite × D
  pub delete_group_invite : ℕ → ℕ → D → Bool × D
  pub is_group_member : ℕ → ℕ → D → Bool × D
  pub rename_group : ℕ → Bytes → D → Bool × D
  pub save_group_message : ℕ → ℕ → Bytes → ℕ → D → Bool × D
  pub get_group_messages : ℕ → ℕ → D → List GroupMessage × D
