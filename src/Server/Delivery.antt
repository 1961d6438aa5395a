-- ===== src/Server/Delivery.antt =====
-- server-cpp/src/server_state.cpp, and the loops of message_handler.cpp that send a message to
-- each of a list of users or queue it for those who are offline.
pub mod Laws
use mobile_chatting_app.Common.{
  ℕ, Bool, true, false, List, [], ◌∷◌, ◌++◌, ◌==◌, if◌then◌else◌, Map, lookup, insert, find_or,
  touch, nat_eq, Option, none, some,
}
use mobile_chatting_app.Common.Bytes.{Bytes, codes}
use mobile_chatting_app.Common.Decimal.{to_string_int}
use mobile_chatting_app.Codec.Kv.{serialize_kv}
use mobile_chatting_app.Server.Protocol.{user_online, user_offline}
use mobile_chatting_app.Server.Data.{ServerState, PendingMsg, minus_one}
use mobile_chatting_app.Server.World.{World, send}

unfoldable pub enqueue_offline : ℕ → ℕ → Bytes → ℕ → ServerState → ServerState
enqueue_offline user_id type payload from s = record s {
  offline_messages =
      insert user_id
        (find_or [] user_id s.offline_messages
          ++ (record { type = type; payload = payload; from_user_id = from } ∷ []))
        s.offline_messages;
}

-- The descriptor of a user's connection, or -1.
abbrev pub fd_of : ℕ → ServerState → ℕ
fd_of user_id s = find_or minus_one user_id s.online_clients

-- The keys whose flag is set.
abbrev pub set_keys : Map ℕ Bool → List ℕ
set_keys [] = []
set_keys ((k, b) ∷ m) = let rest = set_keys m in if b then k ∷ rest else rest

module _ {D : Type 0} where
  -- One round of the loops `for (int mid : membersToNotify)`.
  unfoldable pub deliver : ℕ → ℕ → Bytes → ℕ → World D → World D
  unfolding enqueue_offline
  deliver user_id type payload from w =
      let fd = fd_of user_id w.state in
      if fd == minus_one
      then record w { state = enqueue_offline user_id type payload from w.state }
      else send fd type payload from w

  unfoldable pub broadcast : List ℕ → ℕ → Bytes → ℕ → World D → World D
  broadcast [] type payload from w = w
  broadcast (u ∷ us) type payload from w =
      broadcast us type payload from (deliver u type payload from w)

  -- One round of the loop of `notify_friends_status_change`: only friends online hear of it.
  unfoldable pub notify : ℕ → ℕ → Bytes → ℕ → World D → World D
  notify fid type payload from w =
      let fd = fd_of fid w.state in if fd == minus_one then w else send fd type payload from w

  unfoldable pub notify_all : List ℕ → ℕ → Bytes → ℕ → World D → World D
  notify_all [] type payload from w = w
  notify_all (f ∷ fs) type payload from w =
      notify_all fs type payload from (notify f type payload from w)

  unfoldable pub notify_friends_status_change : ℕ → Bool → World D → World D
  notify_friends_status_change user_id online w =
      let fs = set_keys (find_or [] user_id w.state.friends) in
      let w' = record w {
        state = record (w.state) { friends = touch [] user_id w.state.friends };
      } in
      notify_all fs (if online then user_online else user_offline)
        (serialize_kv ((codes "userId", to_string_int user_id) ∷ [])) user_id w'
