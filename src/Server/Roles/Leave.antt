-- ===== src/Server/Roles/Leave.antt =====
-- What LEAVE_GROUP (server-cpp/src/message_handler.cpp) does to the roles in a group.
use mobile_chatting_app.Common.{
  ℕ, ◌≡◌, refl, false, ◌&&◌, ◌==◌, ==_iff, if◌then◌else◌, lookup, erase, nat_eq, lookup-insert,
  lookup-erase, some, Option-cases, Bool-cases, inl, inr, subst, arith,
}
use mobile_chatting_app.Common.Bytes.{Bytes, codes, bytes_eq, is_empty}
use mobile_chatting_app.Common.Decimal.{stoi}
use mobile_chatting_app.Codec.Kv.{parse_kv}
use mobile_chatting_app.Server.Data.{Group, ServerState}
use mobile_chatting_app.Server.Database.{Database}
use mobile_chatting_app.Server.World.{World, Context, field, monad}
use mobile_chatting_app.Server.Messaging.{Returns}
use mobile_chatting_app.Server.Handlers.Groups.{is_member, is_admin}
use mobile_chatting_app.Server.Handlers.Groups.Membership.{handle_leave_group, leave}

-- In `t` the user `uid` is no member of the group `gid`; its administrators, and all roles in other
-- groups, are as in `s`.
abbrev pub HasLeft : ℕ → ℕ → ServerState → ServerState → Type 0
HasLeft gid uid s t =
    (g u : ℕ)
    → (is_member g u t ≡ (if gid == g && uid == u then false else is_member g u s))
      × (is_admin g u t ≡ is_admin g u s)

leave-HasLeft :
    (gid uid : ℕ) (group : Group) (s : ServerState)
    → lookup gid s.groups ≡ some group
    → is_empty (erase uid group.members) ≡ false
    → HasLeft gid uid s (leave gid uid group s)
unfolding leave is_member is_admin
leave-HasLeft gid uid group s found others g u =
    let left : Group = record group { members = erase uid group.members } in
    let h = lookup-insert gid g left s.groups in
    elim (Bool-cases (gid == g)) [
      | inr other ↦ rw (is_member, is_admin, others, h, other) (refl, refl)
      | inl same ↦
          let there : lookup g s.groups ≡ some group =
            subst (λ i. lookup i s.groups ≡ some group) ((==_iff gid g).0 same) found in
          rw (is_member, is_admin, others, h, same, there)
            (ground (arith, ==_iff uid u, lookup-erase uid u group.members), refl)
    ]

module _ {D : Type 0} (db : Database D) (c : Context) where
  -- LEAVE_GROUP of a group in memory that has other members always returns, and the user is no
  -- member afterwards; but the rights of administrators stay: a leaving administrator keeps them.
  pub leave_group-HasLeft :
      (payload : Bytes) (gid : ℕ) (group : Group) (w : World D)
      → stoi (field (codes "groupId") (parse_kv payload)) ≡ some gid
      → lookup gid w.state.groups ≡ some group
      → is_empty (erase c.current_user_id group.members) ≡ false
      → Returns
          (handle_leave_group db c payload w)
          (λ v w'. (v ≡ c.current_user_id) × HasLeft gid c.current_user_id w.state w'.state)
  unfolding handle_leave_group monad
  leave_group-HasLeft payload gid group w e found others =
      let left = leave-HasLeft gid c.current_user_id group w.state found others in
      elim (Option-cases w.db) [
        | inl z ↦ rw (Returns, e, found, z) (refl, left)
        | inr (d, z) ↦
            let (removed, d') = db.remove_group_member gid c.current_user_id d in
            elim (Bool-cases (db.remove_group_member gid c.current_user_id d).0) [
              | inl done ↦ rw (Returns, e, found, z, done) (refl, left)
              | inr failed ↦ rw (Returns, e, found, z, failed) (refl, left)
            ]
      ]
