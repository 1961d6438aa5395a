-- ===== src/Server/People/Groups.antt =====
-- The requests about groups leave the accounts and the friendships alone.
use mobile_chatting_app.Common.{
  ℕ, if◌then◌else◌, Option, none, some, ◌≡◌, refl, List, [], ◌∷◌, lookup, nat_eq, ◌==◌, Bool-cases,
  inl, inr, ◌∙◌, arith,
}
use mobile_chatting_app.Common.Bytes.{Bytes}
use mobile_chatting_app.Server.Data.{ServerState, Group}
use mobile_chatting_app.Server.Database.{Database}
use mobile_chatting_app.Server.Protocol.{success}
use mobile_chatting_app.Server.World.{send, World, Context}
use mobile_chatting_app.Server.Frame.{Keeps}
use mobile_chatting_app.Server.People.{SamePeople, people, same_fields, delivery_steps}
use mobile_chatting_app.Server.Handlers.Groups.{
  update_group, touch_group, members_to_notify, save_system_message, announce,
}
use mobile_chatting_app.Server.Handlers.Groups.Create.{
  put_group, take_group_id, parse_ids, add_members, make_group, recipients, handle_create_group,
  handle_group_message,
}
use mobile_chatting_app.Server.Handlers.Groups.Membership.{
  leave, tell_members, add_invited, remaining_members, tell_removal, may_remove,
  handle_invite_to_group, handle_accept_group_invite, handle_decline_group_invite,
  handle_remove_from_group, handle_leave_group,
}
use mobile_chatting_app.Server.Handlers.Groups.Admin.{
  tell_rename, tell_nickname, tell_admin, handle_rename_group, handle_set_group_nickname,
  handle_make_admin,
}
use mobile_chatting_app.Server.Handlers.Groups.Listing.{
  admin_flags, stored_rows, stored_items, handle_get_user_groups,
}
use mobile_chatting_app.Common.Bytes.{is_empty}
use mobile_chatting_app.Common.{erase, insert, ◌+◌}

update_group-SamePeople :
    (gid : ℕ) (f : Group → Group) (s : ServerState) → SamePeople s (update_group gid f s)
unfolding update_group
update_group-SamePeople gid f s = go (lookup gid s.groups)
  where
    go :
        (o : Option Group)
        → SamePeople s
            (elim o [ none ↦ s | some g ↦ record s { groups = insert gid (f g) s.groups } ])
    go none = people.same_refl s
    go (some g) = same_fields _ _ refl refl refl refl

touch_group-SamePeople : (gid : ℕ) (s : ServerState) → SamePeople s (touch_group gid s)
unfolding touch_group
touch_group-SamePeople gid s = same_fields _ _ refl refl refl refl

put_group-SamePeople : (g : Group) (s : ServerState) → SamePeople s (put_group g s)
unfolding put_group
put_group-SamePeople g s = same_fields _ _ refl refl refl refl

take_group_id-SamePeople : (s : ServerState) → SamePeople s (take_group_id s)
unfolding take_group_id
take_group_id-SamePeople s = same_fields _ _ refl refl refl refl

leave-SamePeople : (gid uid : ℕ) (g : Group) (s : ServerState) → SamePeople s (leave gid uid g s)
unfolding leave
leave-SamePeople gid uid g s = elim (Bool-cases (is_empty (erase uid g.members))) [
  | inl last ↦ rw last (same_fields _ _ refl refl refl refl)
  | inr more ↦ rw more (same_fields _ _ refl refl refl refl)
]

told-state :
    {D : Type 0} (u uid fd : ℕ) (text : Bytes) (from : ℕ) (w : World D) (o : Option ℕ)
    → (if u == uid then w else elim o [ none ↦ w | some fd ↦ send fd success text from w ]).state
      ≡ w.state
told-state u uid fd text from w o = ground arith

tell_members-state :
    {D : Type 0} (us : List ℕ) (uid : ℕ) (text : Bytes) (from : ℕ) (w : World D)
    → (tell_members us uid text from w).state ≡ w.state
unfolding tell_members
tell_members-state [] uid text from w = refl
tell_members-state (u ∷ us) uid text from w =
    tell_members-state us uid text from _
    ∙ told-state u uid 0 text from w (lookup u w.state.online_clients)

tell_members-SamePeople :
    {D : Type 0} (us : List ℕ) (uid : ℕ) (text : Bytes) (from : ℕ) (w : World D)
    → SamePeople w.state (tell_members us uid text from w).state
tell_members-SamePeople us uid text from w =
    rw (tell_members-state us uid text from w) (people.same_refl w.state)

ruleset group_steps = (
  delivery_steps, update_group-SamePeople, touch_group-SamePeople, put_group-SamePeople,
  take_group_id-SamePeople, leave-SamePeople, tell_members-SamePeople,
)

module _ {D : Type 0} (db : Database D) (c : Context) where
  notify_list-Keeps : (gid : ℕ) → Keeps people (members_to_notify db c gid)
  unfolding members_to_notify
  notify_list-Keeps gid = search group_steps depth 20

  save-Keeps : (gid : ℕ) (text : Bytes) → Keeps people (save_system_message db c gid text)
  unfolding save_system_message
  save-Keeps gid text = search group_steps depth 20

  announce-Keeps : (gid : ℕ) (text : Bytes) → Keeps people (announce db c gid text)
  unfolding announce
  announce-Keeps gid text = search (group_steps, notify_list-Keeps, save-Keeps) depth 20

  parse_ids-Keeps : (ts : List Bytes) → Keeps people (parse_ids db c ts)
  unfolding parse_ids
  parse_ids-Keeps [] = search group_steps
  parse_ids-Keeps (t ∷ ts) = let ih = parse_ids-Keeps ts in search group_steps depth 20

  add_members-Keeps : (gid : ℕ) (is : List ℕ) → Keeps people (add_members db c gid is)
  unfolding add_members
  add_members-Keeps gid [] = search group_steps
  add_members-Keeps gid (i ∷ is) = let ih = add_members-Keeps gid is in search group_steps depth 20

  make_group-Keeps : (name : Bytes) (is : List ℕ) → Keeps people (make_group db c name is)
  unfolding make_group
  make_group-Keeps name is = search (group_steps, add_members-Keeps) depth 20

  pub create-Keeps : (payload : Bytes) → Keeps people (handle_create_group db c payload)
  unfolding handle_create_group
  create-Keeps payload =
      search (group_steps, parse_ids-Keeps, make_group-Keeps, announce-Keeps) depth 30

  recipients-Keeps : (gid : ℕ) → Keeps people (recipients db c gid)
  unfolding recipients
  recipients-Keeps gid = search group_steps depth 20

  pub message-Keeps : (payload : Bytes) → Keeps people (handle_group_message db c payload)
  unfolding handle_group_message
  message-Keeps payload = search (group_steps, recipients-Keeps) depth 20

  add_invited-Keeps : (gid uid : ℕ) → Keeps people (add_invited db c gid uid)
  unfolding add_invited
  add_invited-Keeps gid uid = search (group_steps, announce-Keeps) depth 30

  pub invite-Keeps : (payload : Bytes) → Keeps people (handle_invite_to_group db c payload)
  unfolding handle_invite_to_group
  invite-Keeps payload = search (group_steps, add_invited-Keeps) depth 20

  pub accept-Keeps : (payload : Bytes) → Keeps people (handle_accept_group_invite db c payload)
  unfolding handle_accept_group_invite
  accept-Keeps payload = search group_steps depth 20

  pub decline-Keeps : (payload : Bytes) → Keeps people (handle_decline_group_invite db c payload)
  unfolding handle_decline_group_invite
  decline-Keeps payload = search group_steps depth 20

  remaining-Keeps : (gid : ℕ) → Keeps people (remaining_members db c gid)
  unfolding remaining_members
  remaining-Keeps gid = search group_steps depth 20

  tell_removal-Keeps : (gid uid : ℕ) → Keeps people (tell_removal db c gid uid)
  unfolding tell_removal
  tell_removal-Keeps gid uid = search (group_steps, announce-Keeps, remaining-Keeps) depth 20

  may_remove-Keeps : (gid uid : ℕ) → Keeps people (may_remove db c gid uid)
  unfolding may_remove
  may_remove-Keeps gid uid = search group_steps depth 20

  pub remove-Keeps : (payload : Bytes) → Keeps people (handle_remove_from_group db c payload)
  unfolding handle_remove_from_group
  remove-Keeps payload = search (group_steps, may_remove-Keeps, tell_removal-Keeps) depth 20

  pub leave-Keeps : (payload : Bytes) → Keeps people (handle_leave_group db c payload)
  unfolding handle_leave_group
  leave-Keeps payload = search group_steps depth 20

  tell_rename-Keeps : (gid : ℕ) (name : Bytes) → Keeps people (tell_rename db c gid name)
  unfolding tell_rename
  tell_rename-Keeps gid name = search (group_steps, announce-Keeps) depth 20

  pub rename-Keeps : (payload : Bytes) → Keeps people (handle_rename_group db c payload)
  unfolding handle_rename_group
  rename-Keeps payload = search (group_steps, tell_rename-Keeps) depth 20

  tell_nickname-Keeps :
      (gid uid : ℕ) (nick : Bytes) → Keeps people (tell_nickname db c gid uid nick)
  unfolding tell_nickname
  tell_nickname-Keeps gid uid nick = search (group_steps, save-Keeps) depth 20

  pub nickname-Keeps : (payload : Bytes) → Keeps people (handle_set_group_nickname db c payload)
  unfolding handle_set_group_nickname
  nickname-Keeps payload = search (group_steps, tell_nickname-Keeps) depth 20

  tell_admin-Keeps : (gid uid : ℕ) → Keeps people (tell_admin db c gid uid)
  unfolding tell_admin
  tell_admin-Keeps gid uid = search (group_steps, announce-Keeps) depth 20

  pub make_admin-Keeps : (payload : Bytes) → Keeps people (handle_make_admin db c payload)
  unfolding handle_make_admin
  make_admin-Keeps payload = search (group_steps, tell_admin-Keeps) depth 20

  flags-Keeps : (gid : ℕ) (is : List ℕ) → Keeps people (admin_flags db c gid is)
  unfolding admin_flags
  flags-Keeps gid [] = search group_steps
  flags-Keeps gid (i ∷ is) = let ih = flags-Keeps gid is in search group_steps depth 20

  rows-Keeps : (g : Group) → Keeps people (stored_rows db c g)
  unfolding stored_rows
  rows-Keeps g = search (group_steps, flags-Keeps) depth 20

  items-Keeps : (gs : List Group) (i : ℕ) → Keeps people (stored_items db c gs i)
  unfolding stored_items
  items-Keeps [] i = search group_steps
  items-Keeps (g ∷ gs) i =
      let ih = items-Keeps gs (i + 1) in search (group_steps, rows-Keeps) depth 20

  pub list-Keeps : Keeps people (handle_get_user_groups db c)
  unfolding handle_get_user_groups
  list-Keeps = search (group_steps, items-Keeps) depth 20
