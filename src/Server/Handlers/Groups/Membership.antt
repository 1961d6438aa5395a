-- ===== src/Server/Handlers/Groups/Membership.antt =====
-- INVITE_TO_GROUP, ACCEPT_GROUP_INVITE, DECLINE_GROUP_INVITE, REMOVE_FROM_GROUP and LEAVE_GROUP
-- (server-cpp/src/message_handler.cpp).
use mobile_chatting_app.Common.{
  ℕ, Bool, true, false, List, [], ◌∷◌, ◌++◌, ◌==◌, if◌then◌else◌, none, some, nat_eq, lookup,
  insert, erase, has, find_or, map,
}
use mobile_chatting_app.Common.Bytes.{Bytes, codes, bytes_eq, is_empty}
use mobile_chatting_app.Common.Decimal.{to_string, to_string_int}
use mobile_chatting_app.Codec.Kv.{parse_kv, serialize_kv}
use mobile_chatting_app.Server.Protocol.{success, error, group_message, invite_to_group}
use mobile_chatting_app.Server.Data.{Group, ServerState, minus_one}
use mobile_chatting_app.Server.Database.{Database}
use mobile_chatting_app.Server.World.{
  World, M, case_option, pure, ◌>>=◌, ◌>>◌, get, modify, exec, has_db, call, send, send_message,
  field, to_int, Context,
}
use mobile_chatting_app.Server.Delivery.{broadcast, deliver, fd_of}
use mobile_chatting_app.Server.Handlers.Names.{name_of, session_name}
use mobile_chatting_app.Server.Handlers.Groups.{
  empty_group, update_group, touch_group, add_member, is_member, members_of, reply, announce,
}

-- `members.erase(uid); admins.erase(uid);`
abbrev pub drop_member : ℕ → Group → Group
drop_member uid g = record g { members = erase uid g.members; admins = erase uid g.admins }

-- The change of LEAVE_GROUP to a group that exists: the last member to leave deletes it.
unfoldable pub leave : ℕ → ℕ → Group → ServerState → ServerState
leave gid uid g s =
    let members = erase uid g.members in
    if is_empty members
    then record s { groups = erase gid s.groups }
    else record s { groups = insert gid (record g { members = members }) s.groups }

module _ {D : Type 0} where
  -- "Notify group members about new member": those who are online, but for the new one.
  unfoldable pub tell_members : List ℕ → ℕ → Bytes → ℕ → World D → World D
  tell_members [] uid text from w = w
  tell_members (m ∷ ms) uid text from w =
      let told : World D = elim (lookup m w.state.online_clients) [
        | none ↦ w
        | some fd ↦ send fd success text from w
      ] in
      tell_members ms uid text from (if m == uid then w else told)

module _ {D : Type 0} (db : Database D) (c : Context) where
  open c use {fd, current_user_id, millis}

  -- INVITE_TO_GROUP once the requester is known to be a member.
  unfoldable pub add_invited : ℕ → ℕ → M D ℕ
  add_invited gid uid = do
    persistent ← has_db
    added ←
        if persistent
        then (do
          done ← call (db.add_group_member gid uid)
          if done then (do modify (update_group gid (add_member uid)); pure true) else pure false)
        else (do modify (touch_group gid); modify (update_group gid (add_member uid)); pure true)
    if added
        then (do
          s ← get
          let invited_fd = fd_of uid s
          if invited_fd == minus_one then pure tt else (do
            modify (touch_group gid)
            t ← get
            send_message invited_fd invite_to_group
                (serialize_kv (
                  (codes "groupId", to_string_int gid)
                  ∷ (codes "name", (find_or empty_group gid t.groups).name)
                  ∷ (codes "fromUserId", to_string current_user_id)
                  ∷ []))
                current_user_id)
          u ← get
          _ ← announce db c gid (
              session_name current_user_id u
              ++ (codes " added " ++ (name_of uid u ++ codes " to the group")))
          reply db c success (codes "Added"))
        else reply db c error (codes "Invite failed (db)")

  unfoldable pub handle_invite_to_group : Bytes → M D ℕ
  handle_invite_to_group payload =
      let kv = parse_kv payload in
      do
        gid ← to_int (field (codes "groupId") kv)
        uid ← to_int (field (codes "userId") kv)
        s ← get
        if is_member gid current_user_id s
            then add_invited gid uid
            else reply db c error (codes "Invite failed")

  unfoldable pub handle_accept_group_invite : Bytes → M D ℕ
  handle_accept_group_invite payload = do
    gid ← to_int (field (codes "groupId") (parse_kv payload))
    persistent ← has_db
    accepted ←
        if persistent
        then (do
          added ← call (db.add_group_member gid current_user_id)
          if added
              then (do
                modify (update_group gid (add_member current_user_id))
                _ ← call (db.delete_group_invite gid current_user_id)
                pure true)
              else pure false)
        else (do
          s ← get
          modify (update_group gid (add_member current_user_id))
          pure (has gid s.groups))
    if accepted
        then (do
          t ← get
          exec (
              tell_members (members_of gid t) current_user_id
                (serialize_kv (
                  (codes "groupId", to_string_int gid)
                  ∷ (codes "userId", to_string_int current_user_id)
                  ∷ []))
                current_user_id)
          reply db c success (codes "Accepted"))
        else reply db c error (codes "Accept failed")

  unfoldable pub handle_decline_group_invite : Bytes → M D ℕ
  handle_decline_group_invite payload = do
    gid ← to_int (field (codes "groupId") (parse_kv payload))
    persistent ← has_db
    if persistent
        then (do _ ← call (db.delete_group_invite gid current_user_id); pure tt)
        else pure tt
    reply db c success (codes "Declined")

  -- The members that are left; unlike `members_to_notify` this makes no group.
  unfoldable pub remaining_members : ℕ → M D (List ℕ)
  remaining_members gid = do
    persistent ← has_db
    if persistent
        then (do users ← call (db.get_group_members gid); pure (map (λ u. u.id) users))
        else (do s ← get; pure (members_of gid s))

  -- REMOVE_FROM_GROUP after the member is gone: the three kinds of notices.
  unfoldable pub tell_removal : ℕ → ℕ → M D ℕ
  tell_removal gid uid = do
    s ← get
    _ ← announce db c gid (
        session_name current_user_id s
        ++ (codes " removed " ++ (name_of uid s ++ codes " from the group")))
    exec (
        deliver uid group_message
          (serialize_kv
            ((codes "groupId", to_string_int gid) ∷ (codes "action", codes "removed") ∷ []))
          0)
    remaining ← remaining_members gid
    exec (
        broadcast remaining success
          (serialize_kv (
            (codes "groupId", to_string_int gid)
            ∷ (codes "userId", to_string_int uid)
            ∷ (codes "action", codes "memberRemoved")
            ∷ []))
          0)
    reply db c success (codes "Removed")

  -- "user may remove themselves; removing others requires admin"
  unfoldable pub may_remove : ℕ → ℕ → M D Bool
  may_remove gid uid = do
    persistent ← has_db
    if persistent
        then (if uid == current_user_id
            then pure true
            else call (db.is_group_admin gid current_user_id))
        else (do
          s ← get
          pure (elim (lookup gid s.groups) [
            | none ↦ false
            | some g ↦
                if uid == current_user_id then true else find_or false current_user_id g.admins
          ]))

  unfoldable pub handle_remove_from_group : Bytes → M D ℕ
  handle_remove_from_group payload =
      let kv = parse_kv payload in
      do
        gid ← to_int (field (codes "groupId") kv)
        uid ← to_int (field (codes "userId") kv)
        permitted ← may_remove gid uid
        if permitted
            then (do
              persistent ← has_db
              removed ← if persistent then call (db.remove_group_member gid uid) else pure true
              if removed
                  then (do modify (update_group gid (drop_member uid)); tell_removal gid uid)
                  else reply db c error (codes "Remove failed (db)"))
            else reply db c error (codes "Not permitted")

  unfoldable pub handle_leave_group : Bytes → M D ℕ
  handle_leave_group payload = do
    gid ← to_int (field (codes "groupId") (parse_kv payload))
    s ← get
    persistent ← has_db
    case_option (lookup gid s.groups) (reply db c success (codes "Left group")) (λ g. do
      let deleted = is_empty (erase current_user_id g.members)
      modify (leave gid current_user_id g)
      removed ← if persistent then call (db.remove_group_member gid current_user_id) else pure true
      if removed
          then reply db c success (if deleted then codes "Group deleted" else codes "Left group")
          else reply db c error (codes "Leave failed (db)"))
