-- ===== src/Server/Handlers/Groups.antt =====
-- The requests about groups (server-cpp/src/message_handler.cpp), and what they share.
pub mod Membership
pub mod Create
pub mod Admin
pub mod Listing
use mobile_chatting_app.Common.{
  ℕ, Bool, true, false, List, [], ◌∷◌, ◌++◌, if◌then◌else◌, Option, none, some, nat_eq, Map, lookup,
  insert, erase, has, find_or, touch, keys, map,
}
use mobile_chatting_app.Common.Bytes.{Bytes, codes}
use mobile_chatting_app.Common.Decimal.{to_string, to_string_int}
use mobile_chatting_app.Codec.Kv.{serialize_kv}
use mobile_chatting_app.Server.Protocol.{success, error, group_message}
use mobile_chatting_app.Server.Data.{User, Group, ServerState}
use mobile_chatting_app.Server.Database.{Database}
use mobile_chatting_app.Server.World.{
  World, Result, M, pure, ◌>>=◌, ◌>>◌, get, modify, exec, has_db, call, send, send_message, Context,
}
use mobile_chatting_app.Server.Delivery.{broadcast}

-- The group that `g_groups[gid]` makes for a missing key.
abbrev pub empty_group : Group
empty_group = record {
  id = 0;
  name = [];
  owner_id = 0;
  members = [];
  admins = [];
  member_nicknames = [];
}

-- A change of the group that `g_groups.find(gid)` finds; nothing where there is none.
unfoldable pub update_group : ℕ → (Group → Group) → ServerState → ServerState
update_group gid f s = elim (lookup gid s.groups) [
  | none ↦ s
  | some g ↦ record s { groups = insert gid (f g) s.groups }
]

-- `g_groups[gid];`
unfoldable pub touch_group : ℕ → ServerState → ServerState
touch_group gid s = record s { groups = touch empty_group gid s.groups }

abbrev pub add_member : ℕ → Group → Group
add_member uid g = record g { members = insert uid true g.members }

-- The group exists and its map of members has the user.
unfoldable pub is_member : ℕ → ℕ → ServerState → Bool
is_member gid uid s = elim (lookup gid s.groups) [ none ↦ false | some g ↦ has uid g.members ]

-- `admins.count(uid) && admins[uid]` in a group that exists.
unfoldable pub is_admin : ℕ → ℕ → ServerState → Bool
is_admin gid uid s = elim (lookup gid s.groups) [
  | none ↦ false
  | some g ↦ find_or false uid g.admins
]

abbrev pub members_of : ℕ → ServerState → List ℕ
members_of gid s = keys (find_or empty_group gid s.groups).members

-- A message of a group: a system message has the sender 0.
unfoldable pub group_payload : ℕ → ℕ → Bytes → ℕ → Bytes
group_payload gid sender message millis = serialize_kv (
    (codes "groupId", to_string_int gid)
    ∷ (codes "senderId", to_string_int sender)
    ∷ (codes "message", message)
    ∷ (codes "timestamp", to_string millis)
    ∷ [])

module _ {D : Type 0} (db : Database D) (c : Context) where
  open c use {fd, current_user_id, millis}

  abbrev pub reply : ℕ → Bytes → M D ℕ
  reply type text = do send_message fd type text current_user_id; pure current_user_id

  -- The members to notify: those of the database, or else those in memory.
  unfoldable pub members_to_notify : ℕ → M D (List ℕ)
  members_to_notify gid = do
    persistent ← has_db
    if persistent
        then (do users ← call (db.get_group_members gid); pure (map (λ u. u.id) users))
        else (do modify (touch_group gid); s ← get; pure (members_of gid s))

  unfoldable pub save_system_message : ℕ → Bytes → M D (Unit {0})
  save_system_message gid text = do
    persistent ← has_db
    if persistent then (do _ ← call (db.save_group_message gid 0 text millis); pure tt) else pure tt

  -- "Broadcast system message"; the result is the list of members it went to.
  unfoldable pub announce : ℕ → Bytes → M D (List ℕ)
  announce gid text = do
    save_system_message gid text
    members ← members_to_notify gid
    exec (broadcast members group_message (group_payload gid 0 text millis) 0)
    pure members
