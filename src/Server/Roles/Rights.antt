-- ===== src/Server/Roles/Rights.antt =====
-- What REMOVE_FROM_GROUP, MAKE_ADMIN and LEAVE_GROUP (server-cpp/src/message_handler.cpp) do to the
-- members and the administrators of a group, without a database.
use mobile_chatting_app.Common.{
  ℕ, ◌≡◌, ◌≢◌, refl, sym, ap, ◌∙◌, Bool, true, false, ◌&&◌, ◌||◌, ◌==◌, ==_iff, if◌then◌else◌, has,
  lookup, insert, nat_eq, lookup-insert, lookup-erase, Option, none, some, Option-cases, Bool-cases,
  inl, inr, subst, arith,
}
use mobile_chatting_app.Common.Bytes.{Bytes, codes, bytes_eq}
use mobile_chatting_app.Common.Decimal.{stoi}
use mobile_chatting_app.Codec.Kv.{parse_kv}
use mobile_chatting_app.Server.Data.{Group, ServerState}
use mobile_chatting_app.Server.Database.{Database}
use mobile_chatting_app.Server.World.{World, Context, ok, field, monad}
use mobile_chatting_app.Server.Delivery.Laws.{deliver-db, broadcast-db}
use mobile_chatting_app.Server.Messaging.{Returns, Returns-After}
use mobile_chatting_app.Server.Roles.{SameRoles, tell_removal-Keeps, tell_admin-Keeps}
use mobile_chatting_app.Server.Handlers.Groups.{
  update_group, is_member, is_admin, members_to_notify, save_system_message, announce,
}
use mobile_chatting_app.Server.Handlers.Groups.Membership.{
  tell_removal, remaining_members, may_remove, drop_member, handle_remove_from_group,
}
use mobile_chatting_app.Server.Handlers.Groups.Admin.{tell_admin, set_admin, handle_make_admin}

-- In `t` the user `uid` has no role in the group `gid` if `allowed`; else the roles are as in `s`.
abbrev pub IsRemoved : Bool → ℕ → ℕ → ServerState → ServerState → Type 0
IsRemoved allowed gid uid s t =
    (g u : ℕ)
    → (is_member g u t ≡ (if allowed && (gid == g && uid == u) then false else is_member g u s))
      × (is_admin g u t ≡ (if allowed && (gid == g && uid == u) then false else is_admin g u s))

-- In `t` the user `uid` is an administrator of the group `gid` if `allowed`; else the roles are as in
-- `s`.
abbrev pub IsPromoted : Bool → ℕ → ℕ → ServerState → ServerState → Type 0
IsPromoted allowed gid uid s t =
    (g u : ℕ)
    → (is_member g u t ≡ is_member g u s)
      × (is_admin g u t ≡ (if allowed && (gid == g && uid == u) then true else is_admin g u s))

-- The group that `f` leaves for the one that was found.
abbrev changed : (Group → Group) → Option Group → Option Group
changed f none = none
changed f (some g) = some (f g)

lookup-update_group :
    (gid g : ℕ) (f : Group → Group) (s : ServerState)
    → lookup g (update_group gid f s).groups
      ≡ (if gid == g then changed f (lookup g s.groups) else lookup g s.groups)
unfolding update_group
lookup-update_group gid g f s = go (lookup gid s.groups) refl
  where
    go :
        (o : Option Group)
        → lookup gid s.groups ≡ o
        → lookup g
            (elim o as (λ _. ServerState) [
              | none ↦ s
              | some h ↦ record s { groups = insert gid (f h) s.groups }
            ]).groups
          ≡ (if gid == g then changed f (lookup g s.groups) else lookup g s.groups)
    go none e = ground (arith, ==_iff gid g, e)
    go (some h) e = ground (arith, ==_iff gid g, e, lookup-insert gid g (f h) s.groups)

drop_member-IsRemoved :
    (gid uid : ℕ) (s : ServerState)
    → IsRemoved true gid uid s (update_group gid (drop_member uid) s)
unfolding is_member is_admin
drop_member-IsRemoved gid uid s g u =
    let h = lookup-update_group gid g (drop_member uid) s in
    elim (Bool-cases (gid == g)) [
      | inr other ↦ rw (is_member, is_admin, h, other) (refl, refl)
      | inl same ↦ elim (Option-cases (lookup g s.groups)) [
        | inl missing ↦
            rw (is_member, is_admin, h, same, missing)
              (ground (arith, ==_iff uid u), ground (arith, ==_iff uid u))
        | inr (group, found) ↦
            rw (is_member, is_admin, h, same, found)
              (
                ground (arith, ==_iff uid u, lookup-erase uid u group.members),
                ground (arith, ==_iff uid u, lookup-erase uid u group.admins),
              )
      ]
    ]

false-ne-true : false ≢ true
false-ne-true e = ground (arith, e)

set_admin-IsPromoted :
    (gid uid : ℕ) (s : ServerState)
    → has gid s.groups ≡ true
    → IsPromoted true gid uid s (update_group gid (set_admin uid) s)
unfolding is_member is_admin
set_admin-IsPromoted gid uid s exists g u =
    let h = lookup-update_group gid g (set_admin uid) s in
    elim (Bool-cases (gid == g)) [
      | inr other ↦ rw (is_member, is_admin, h, other) (refl, refl)
      | inl same ↦ elim (Option-cases (lookup g s.groups)) [
        | inl missing ↦
            let e : gid ≡ g = (==_iff gid g).0 same in
            let there : has g s.groups ≡ true = subst (λ i. has i s.groups ≡ true) e exists in
            absurd (
              false-ne-true
                (ap (λ o. elim o [ none ↦ false | some _ ↦ true ]) (sym missing) ∙ there))
        | inr (group, found) ↦
            rw (is_member, is_admin, h, same, found)
              (refl, ground (arith, ==_iff uid u, lookup-insert uid u true group.admins))
      ]
    ]

module _ {D : Type 0} (db : Database D) (c : Context) where
  tell_removal-Returns :
      (gid uid : ℕ) (w : World D)
      → w.db ≡ none
      → Returns (tell_removal db c gid uid w) (λ v w'. v ≡ c.current_user_id)
  unfolding tell_removal announce save_system_message members_to_notify remaining_members monad
  tell_removal-Returns gid uid w z = rw (Returns, z, deliver-db, broadcast-db) refl

  tell_admin-Returns :
      (gid uid : ℕ) (w : World D)
      → w.db ≡ none
      → Returns (tell_admin db c gid uid w) (λ v w'. v ≡ c.current_user_id)
  unfolding tell_admin announce save_system_message members_to_notify monad
  tell_admin-Returns gid uid w z = rw (Returns, z) refl

-- "user may remove themselves; removing others requires admin"
abbrev pub permits : ℕ → ℕ → ℕ → ServerState → Bool
permits gid uid actor s = has gid s.groups && (uid == actor || is_admin gid actor s)

IsRemoved-then :
    (gid uid : ℕ) (s t v : ServerState)
    → IsRemoved true gid uid s t
    → SameRoles t v
    → IsRemoved true gid uid s v
IsRemoved-then gid uid s t v h k g u = (sym (k g u).0 ∙ (h g u).0, sym (k g u).1 ∙ (h g u).1)

IsPromoted-then :
    (gid uid : ℕ) (s t v : ServerState)
    → IsPromoted true gid uid s t
    → SameRoles t v
    → IsPromoted true gid uid s v
IsPromoted-then gid uid s t v h k g u = (sym (k g u).0 ∙ (h g u).0, sym (k g u).1 ∙ (h g u).1)

admin-exists : (gid uid : ℕ) (s : ServerState) → is_admin gid uid s ≡ true → has gid s.groups ≡ true
unfolding is_admin
admin-exists gid uid s h = ground (arith, h)

module _ {D : Type 0} (db : Database D) (c : Context) where
  may_remove-memory :
      (gid uid : ℕ) (w : World D)
      → w.db ≡ none
      → may_remove db c gid uid w ≡ ok (permits gid uid c.current_user_id w.state) w
  unfolding may_remove is_admin monad
  may_remove-memory gid uid w z = rw (z) (ap (λ b. ok b (record w { db = none })) (ground arith))

  -- Without a database, REMOVE_FROM_GROUP with a number for its group and for its user always succeeds
  -- or is refused in order: a member may remove itself and an administrator anybody from a group that exists; the removed user is neither member
  -- nor administrator afterwards, every other role stays, and a refusal changes no role.
  pub remove_from_group-IsRemoved :
      (payload : Bytes) (gid uid : ℕ) (w : World D)
      → stoi (field (codes "groupId") (parse_kv payload)) ≡ some gid
      → stoi (field (codes "userId") (parse_kv payload)) ≡ some uid
      → w.db ≡ none
      → Returns (handle_remove_from_group db c payload w) (λ v w'.
        (v ≡ c.current_user_id)
        × IsRemoved (permits gid uid c.current_user_id w.state) gid uid w.state w'.state)
  unfolding handle_remove_from_group monad
  remove_from_group-IsRemoved payload gid uid w e f z =
      let permitted = permits gid uid c.current_user_id w.state in
      let x : World D = record w {
        db = none;
        state = update_group gid (drop_member uid) w.state;
      } in
      elim (Bool-cases permitted) [
        | inl granted ↦
            rw (Returns, e, f, may_remove-memory gid uid w z, granted, z)
              (Returns-After {P = λ v w'. v ≡ c.current_user_id}
                {Q = λ v w'. SameRoles x.state w'.state} (tell_removal db c gid uid x)
                (λ v w' returned kept. (
                  returned,
                  IsRemoved-then gid uid w.state x.state w'.state
                      (drop_member-IsRemoved gid uid w.state) kept,
                ))
                (tell_removal-Returns db c gid uid x refl)
                ((tell_removal-Keeps db c gid uid).keeps x))
        | inr denied ↦
            rw (Returns, e, f, may_remove-memory gid uid w z, denied) (refl, λ g u. (refl, refl))
      ]

  -- Without a database, MAKE_ADMIN with a number for its group and for its user always succeeds or is
  -- refused in order: only an administrator of the group makes the user an administrator; no other role changes, and a refusal changes none.
  pub make_admin-IsPromoted :
      (payload : Bytes) (gid uid : ℕ) (w : World D)
      → stoi (field (codes "groupId") (parse_kv payload)) ≡ some gid
      → stoi (field (codes "userId") (parse_kv payload)) ≡ some uid
      → w.db ≡ none
      → Returns (handle_make_admin db c payload w) (λ v w'.
        (v ≡ c.current_user_id)
        × IsPromoted (is_admin gid c.current_user_id w.state) gid uid w.state w'.state)
  unfolding handle_make_admin monad
  make_admin-IsPromoted payload gid uid w e f z =
      let x : World D = record w { db = none; state = update_group gid (set_admin uid) w.state } in
      elim (Bool-cases (is_admin gid c.current_user_id w.state)) [
        | inl granted ↦
            rw (Returns, e, f, z, granted, z)
              (Returns-After {P = λ v w'. v ≡ c.current_user_id}
                {Q = λ v w'. SameRoles x.state w'.state}
                {R = λ v w'. (v ≡ c.current_user_id) × IsPromoted true gid uid w.state w'.state}
                (tell_admin db c gid uid x)
                (λ v w' returned kept. (
                  returned,
                  IsPromoted-then gid uid w.state x.state w'.state
                      (set_admin-IsPromoted gid uid w.state
                        (admin-exists gid c.current_user_id w.state granted))
                      kept,
                ))
                (tell_admin-Returns db c gid uid x refl) ((tell_admin-Keeps db c gid uid).keeps x))
        | inr denied ↦ rw (Returns, e, f, z, denied) (refl, λ g u. (refl, refl))
      ]
