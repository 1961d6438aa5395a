-- ===== src/Server/Roles.antt =====
-- Who is a member and who an administrator of a group, and what REMOVE_FROM_GROUP, MAKE_ADMIN and
-- LEAVE_GROUP (server-cpp/src/message_handler.cpp) do about it.
pub mod Rights
pub mod Leave
use mobile_chatting_app.Common.{
  ℕ, ◌≡◌, ◌≢◌, refl, sym, ap, ◌∙◌, Bool, true, false, List, [], ◌∷◌, ◌++◌, ◌==◌, ==_refl, ==_iff,
  if◌then◌else◌, Map, has, lookup, insert, find_or, nat_eq, lookup-insert, lookup-erase, Option,
  none, some, Option-cases, Bool-cases, inl, inr, subst,
}
use mobile_chatting_app.Common.Bytes.{Bytes, codes, bytes_eq}
use mobile_chatting_app.Server.Data.{Group, ServerState, minus_one}
use mobile_chatting_app.Server.Database.{Database}
use mobile_chatting_app.Server.World.{World, Context, M, monad}
use mobile_chatting_app.Server.Frame.{Frame, Keeps, keeping, Keeps-exec, Keeps-modify}
use mobile_chatting_app.Server.Delivery.{deliver, broadcast, fd_of, enqueue_offline}
use mobile_chatting_app.Server.Handlers.Groups.{
  empty_group, touch_group, update_group, is_member, is_admin, members_to_notify,
  save_system_message, announce,
}
use mobile_chatting_app.Server.Handlers.Groups.Membership.{tell_removal, remaining_members}
use mobile_chatting_app.Server.Handlers.Groups.Admin.{tell_admin}

-- The same members and the same administrators in every group.
abbrev pub SameRoles : ServerState → ServerState → Type 0
SameRoles s t = (g u : ℕ) → (is_member g u s ≡ is_member g u t) × (is_admin g u s ≡ is_admin g u t)

abbrev pub roles : Frame
roles = record {
  Same = SameRoles;
  same_refl = λ s g u. (refl, refl);
  same_trans = λ s t v h k g u. ((h g u).0 ∙ (k g u).0, (h g u).1 ∙ (k g u).1);
}

-- A group that `g_groups[gid]` makes has no members.
pub touch_group-SameRoles : (gid : ℕ) (s : ServerState) → SameRoles s (touch_group gid s)
unfolding touch_group is_member is_admin lookup
touch_group-SameRoles gid s g u = elim (Bool-cases (gid == g)) [
  | inl same ↦ elim (Option-cases (lookup gid s.groups)) [
    | inl missing ↦
        let e : gid ≡ g = (==_iff gid g).0 same in
        let m : lookup g s.groups ≡ none = subst (λ i. lookup i s.groups ≡ none) e missing in
        rw (is_member, is_admin, h, same, find_or, missing, m) (refl, refl)
    | inr (group, found) ↦
        let e : gid ≡ g = (==_iff gid g).0 same in
        let m : lookup g s.groups ≡ some group =
          subst (λ i. lookup i s.groups ≡ some group) e found in
        rw (is_member, is_admin, h, same, find_or, found, m) (refl, refl)
  ]
  | inr other ↦ rw (is_member, is_admin, h, other) (refl, refl)
]
  where
    h :
        lookup g (insert gid (find_or empty_group gid s.groups) s.groups)
        ≡ (if gid == g then some (find_or empty_group gid s.groups) else lookup g s.groups)
    h = lookup-insert gid g (find_or empty_group gid s.groups) s.groups

module _ {D : Type 0} where
  pub deliver-SameRoles :
      (u type : ℕ) (text : Bytes) (from : ℕ) (w : World D)
      → SameRoles w.state (deliver u type text from w).state
  unfolding deliver enqueue_offline is_member is_admin
  deliver-SameRoles u type text from w g v = elim (Bool-cases (fd_of u w.state == minus_one)) [
    | inl offline ↦ rw offline (refl, refl)
    | inr online ↦ rw online (refl, refl)
  ]

  pub broadcast-SameRoles :
      (us : List ℕ) (type : ℕ) (text : Bytes) (from : ℕ) (w : World D)
      → SameRoles w.state (broadcast us type text from w).state
  unfolding broadcast
  broadcast-SameRoles [] type text from w = roles.same_refl w.state
  broadcast-SameRoles (u ∷ us) type text from w =
      roles.same_trans w.state (deliver u type text from w).state _
        (deliver-SameRoles u type text from w)
        (broadcast-SameRoles us type text from (deliver u type text from w))

pub ruleset role_steps = (
  keeping, Keeps-exec, Keeps-modify, touch_group-SameRoles, deliver-SameRoles, broadcast-SameRoles,
)

module _ {D : Type 0} (db : Database D) (c : Context) where
  members_to_notify-Keeps : (gid : ℕ) → Keeps roles (members_to_notify db c gid)
  unfolding members_to_notify
  members_to_notify-Keeps gid = search role_steps depth 20

  save_system_message-Keeps :
      (gid : ℕ) (text : Bytes) → Keeps roles (save_system_message db c gid text)
  unfolding save_system_message
  save_system_message-Keeps gid text = search role_steps depth 20

  announce-Keeps : (gid : ℕ) (text : Bytes) → Keeps roles (announce db c gid text)
  unfolding announce
  announce-Keeps gid text =
      search (role_steps, save_system_message-Keeps, members_to_notify-Keeps) depth 20

  remaining_members-Keeps : (gid : ℕ) → Keeps roles (remaining_members db c gid)
  unfolding remaining_members
  remaining_members-Keeps gid = search role_steps depth 20

  pub tell_removal-Keeps : (gid uid : ℕ) → Keeps roles (tell_removal db c gid uid)
  unfolding tell_removal
  tell_removal-Keeps gid uid = search (role_steps, announce-Keeps, remaining_members-Keeps) depth 20

  pub tell_admin-Keeps : (gid uid : ℕ) → Keeps roles (tell_admin db c gid uid)
  unfolding tell_admin
  tell_admin-Keeps gid uid = search (role_steps, announce-Keeps) depth 20
