-- ===== src/Server/Handlers/Groups/Admin.antt =====
-- RENAME_GROUP, SET_GROUP_NICKNAME and MAKE_ADMIN (server-cpp/src/message_handler.cpp).
use mobile_chatting_app.Common.{ℕ, Bool, true, [], ◌∷◌, ◌++◌, ◌==◌, if◌then◌else◌, nat_eq, insert}
use mobile_chatting_app.Common.Bytes.{Bytes, codes, bytes_eq, is_empty}
use mobile_chatting_app.Common.Decimal.{to_string_int}
use mobile_chatting_app.Codec.Kv.{parse_kv, serialize_kv}
use mobile_chatting_app.Server.Protocol.{success, error, group_message}
use mobile_chatting_app.Server.Data.{Group}
use mobile_chatting_app.Server.Database.{Database}
use mobile_chatting_app.Server.World.{
  M, pure, ◌>>=◌, ◌>>◌, get, modify, exec, has_db, call, field, to_int, Context,
}
use mobile_chatting_app.Server.Delivery.{broadcast}
use mobile_chatting_app.Server.Handlers.Names.{name_of, session_name, username_or}
use mobile_chatting_app.Server.Handlers.Groups.{
  update_group, is_member, is_admin, members_of, group_payload, reply, save_system_message,
  announce,
}

abbrev pub set_nickname : ℕ → Bytes → Group → Group
set_nickname uid nick g = record g { member_nicknames = insert uid nick g.member_nicknames }

abbrev pub set_name : Bytes → Group → Group
set_name name g = record g { name = name }

abbrev pub set_admin : ℕ → Group → Group
set_admin uid g = record g { admins = insert uid true g.admins }

-- The system message of SET_GROUP_NICKNAME.
unfoldable pub nickname_text : Bool → Bytes → Bytes → Bytes → Bytes
nickname_text own actor target nick =
    if own
    then (if is_empty nick
        then actor ++ codes " removed their nickname"
        else actor ++ (codes " set their nickname to \"" ++ (nick ++ codes "\"")))
    else (if is_empty nick
        then actor ++ (codes " removed " ++ (target ++ codes "'s nickname"))
        else actor
          ++ (codes " set " ++ (target ++ (codes "'s nickname to \"" ++ (nick ++ codes "\"")))))

module _ {D : Type 0} (db : Database D) (c : Context) where
  open c use {fd, current_user_id, millis}

  unfoldable pub tell_rename : ℕ → Bytes → M D ℕ
  tell_rename gid name = do
    persistent ← has_db
    if persistent then (do _ ← call (db.rename_group gid name); pure tt) else pure tt
    s ← get
    members ← announce db c gid (
        session_name current_user_id s
        ++ (codes " renamed the group to \"" ++ (name ++ codes "\"")))
    exec (
        broadcast members success
          (serialize_kv (
            (codes "groupId", to_string_int gid)
            ∷ (codes "name", name)
            ∷ (codes "action", codes "renamed")
            ∷ []))
          current_user_id)
    reply db c success (codes "Renamed")

  unfoldable pub handle_rename_group : Bytes → M D ℕ
  handle_rename_group payload =
      let kv = parse_kv payload in
      let name = field (codes "name") kv in
      do
        gid ← to_int (field (codes "groupId") kv)
        s ← get
        if is_member gid current_user_id s
            then (do modify (update_group gid (set_name name)); tell_rename gid name)
            else reply db c error (codes "Rename failed")

  unfoldable pub tell_nickname : ℕ → ℕ → Bytes → M D ℕ
  tell_nickname gid uid nick = do
    s ← get
    let actor = username_or (codes "User " ++ to_string_int current_user_id) current_user_id s
    let target = username_or (codes "User " ++ to_string_int uid) uid s
    let text = nickname_text (uid == current_user_id) actor target nick
    save_system_message db c gid text
    t ← get
    exec (broadcast (members_of gid t) group_message (group_payload gid 0 text millis) 0)
    reply db c success (codes "Nickname set")

  unfoldable pub handle_set_group_nickname : Bytes → M D ℕ
  handle_set_group_nickname payload =
      let kv = parse_kv payload in
      let nick = field (codes "nick") kv in
      do
        gid ← to_int (field (codes "groupId") kv)
        uid ← to_int (field (codes "userId") kv)
        s ← get
        if is_member gid uid s
            then (do
              modify (update_group gid (set_nickname uid nick))
              persistent ← has_db
              if persistent
                  then (do _ ← call (db.set_group_nickname gid uid nick); pure tt)
                  else pure tt
              tell_nickname gid uid nick)
            else reply db c error (codes "Set nickname failed")

  unfoldable pub tell_admin : ℕ → ℕ → M D ℕ
  tell_admin gid uid = do
    s ← get
    members ←
        announce db c gid (
          session_name current_user_id s
          ++ (codes " made " ++ (name_of uid s ++ codes " an admin")))
    exec (
        broadcast members success
          (serialize_kv (
            (codes "groupId", to_string_int gid)
            ∷ (codes "userId", to_string_int uid)
            ∷ (codes "isAdmin", codes "true")
            ∷ []))
          current_user_id)
    reply db c success (codes "Made admin")

  unfoldable pub handle_make_admin : Bytes → M D ℕ
  handle_make_admin payload =
      let kv = parse_kv payload in
      do
        gid ← to_int (field (codes "groupId") kv)
        uid ← to_int (field (codes "userId") kv)
        s ← get
        persistent ← has_db
        permitted ←
            if persistent
            then call (db.is_group_admin gid current_user_id)
            else pure (is_admin gid current_user_id s)
        if permitted
            then (do
              done ← if persistent then call (db.set_group_admin gid uid true) else pure true
              if done
                  then (do modify (update_group gid (set_admin uid)); tell_admin gid uid)
                  else reply db c error (codes "Make admin failed (db)"))
            else reply db c error (codes "Not permitted")
