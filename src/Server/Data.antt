-- ===== src/Server/Data.antt =====
-- server-cpp/include/data_models.h and the globals of server-cpp/include/server_state.h. An `int`
-- is its 32-bit pattern.
use mobile_chatting_app.Common.{ℕ, ◌^◌, ◌-◌, Bool, List, Map}
use mobile_chatting_app.Common.Bytes.{Bytes}

pub record User : Type 0 where
  pub id : ℕ
  pub username : Bytes
  pub password_hash : Bytes
  pub phone : Bytes
  pub socket_fd : ℕ
  pub is_online : Bool
  pub last_seen : ℕ

pub record Group : Type 0 where
  pub id : ℕ
  pub name : Bytes
  pub owner_id : ℕ
  pub members : Map ℕ Bool
  pub admins : Map ℕ Bool
  pub member_nicknames : Map ℕ Bytes

pub record Message : Type 0 where
  pub id : ℕ
  pub from_user_id : ℕ
  pub to_user_id : ℕ
  pub content : Bytes
  pub timestamp : ℕ
  pub is_read : Bool

pub record FriendRequest : Type 0 where
  pub id : ℕ
  pub from_user_id : ℕ
  pub to_user_id : ℕ
  pub status : Bytes
  pub timestamp : ℕ

pub record GroupInvite : Type 0 where
  pub id : ℕ
  pub group_id : ℕ
  pub from_user_id : ℕ
  pub to_user_id : ℕ
  pub status : Bytes
  pub timestamp : ℕ

pub record GroupMessage : Type 0 where
  pub id : ℕ
  pub group_id : ℕ
  pub user_id : ℕ
  pub content : Bytes
  pub timestamp : ℕ

pub record PendingMsg : Type 0 where
  pub type : ℕ
  pub payload : Bytes
  pub from_user_id : ℕ

-- The globals of namespace `server_state`, without the mutex and the database.
pub record ServerState : Type 0 where
  pub users_by_name : Map Bytes User
  pub users_by_id : Map ℕ User
  pub next_user_id : ℕ
  pub friends : Map ℕ (Map ℕ Bool)
  pub friend_requests : Map ℕ (List ℕ)
  pub online_clients : Map ℕ ℕ
  pub groups : Map ℕ Group
  pub next_group_id : ℕ
  pub offline_messages : Map ℕ (List PendingMsg)

-- The `int` -1.
abbrev pub minus_one : ℕ
minus_one = 2 ^ 32 - 1
