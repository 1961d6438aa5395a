-- ===== src/Server/Handlers/Account.antt =====
-- REGISTER, LOGIN, LOGOUT and the end of a session (server-cpp/src/message_handler.cpp), with
-- `save_users` of server-cpp/src/persistence.cpp.
use mobile_chatting_app.Common.{
  ℕ, true, false, ◌||◌, List, [], ◌∷◌, ◌++◌, ◌==◌, if◌then◌else◌, none, some, nat_eq, Map, lookup,
  insert, erase, has, find_or, touch, map,
}
use mobile_chatting_app.Common.Bytes.{Bytes, codes, bytes_eq, bytes_beq, is_empty}
use mobile_chatting_app.Common.Decimal.{to_string_int}
use mobile_chatting_app.Codec.Kv.{parse_kv, serialize_kv}
use mobile_chatting_app.Server.Protocol.{success, error, friend_request, invite_to_group}
use mobile_chatting_app.Server.Data.{User, ServerState, PendingMsg, FriendRequest, GroupInvite}
use mobile_chatting_app.Server.Database.{Database}
use mobile_chatting_app.Server.World.{
  World, M, case_option, pure, ◌>>=◌, ◌>>◌, get, modify, exec, has_db, call, send, send_message,
  log_activity, field, Context,
}
use mobile_chatting_app.Server.Delivery.{notify_friends_status_change}
use mobile_chatting_app.Server.Handlers.Names.{int_leb, int_suc, name_of, add_request}

-- The lines that `save_users` writes.
unfoldable pub user_lines : Map Bytes User → Bytes
user_lines [] = []
user_lines ((k, u) ∷ m) =
    to_string_int u.id
    ++ (9 ∷ (u.username ++ (9 ∷ (u.password_hash ++ (9 ∷ (u.phone ++ (10 ∷ user_lines m)))))))

unfoldable pub save_users : {D : Type 0} → Map Bytes User → World D → World D
unfolding user_lines
save_users users w = record w {
  users_file = if w.file_opens then some (user_lines users) else w.users_file;
}

-- The changes of REGISTER to the globals, after the user has an id.
unfoldable pub add_user : ℕ → Bytes → Bytes → Bytes → ℕ → ServerState → ServerState
add_user uid username password phone fd s =
    let u : User = record {
      id = uid;
      username = username;
      password_hash = password;
      phone = phone;
      socket_fd = fd;
      is_online = true;
      last_seen = 0;
    } in
    record s {
      users_by_name = insert username u s.users_by_name;
      users_by_id = insert uid u s.users_by_id;
      friends = touch [] uid s.friends;
      friend_requests = touch [] uid s.friend_requests;
      online_clients = insert uid fd s.online_clients;
      next_user_id = if int_leb s.next_user_id uid then int_suc uid else s.next_user_id;
    }

-- `uid = g_next_user_id++;`
unfoldable pub take_user_id : ServerState → ServerState
take_user_id s = record s { next_user_id = int_suc s.next_user_id }

-- `g_online_clients[uid] = client_fd;`
unfoldable pub set_online : ℕ → ℕ → ServerState → ServerState
set_online uid fd s = record s { online_clients = insert uid fd s.online_clients }

-- `g_online_clients.erase(uid);`
unfoldable pub set_offline : ℕ → ServerState → ServerState
set_offline uid s = record s { online_clients = erase uid s.online_clients }

-- `g_offline_messages.erase(…);`
unfoldable pub clear_queue : ℕ → ServerState → ServerState
clear_queue uid s = record s { offline_messages = erase uid s.offline_messages }

-- The answer to REGISTER and LOGIN.
unfoldable pub welcome : ℕ → Bytes → Bytes
welcome uid username = serialize_kv (
    (codes "success", codes "true")
    ∷ (codes "userId", to_string_int uid)
    ∷ (codes "token", codes "demo_token")
    ∷ (codes "username", username)
    ∷ [])

-- `get_pending_requests` synced to memory.
unfoldable pub sync_requests : ℕ → List FriendRequest → ServerState → ServerState
sync_requests uid [] s = s
sync_requests uid (r ∷ rs) s = sync_requests uid rs (add_request uid r.from_user_id s)

module _ {D : Type 0} where
  -- The notices of pending friend requests.
  unfoldable pub send_requests : ℕ → List ℕ → World D → World D
  send_requests fd [] w = w
  send_requests fd (from ∷ rest) w = send_requests fd rest (
      send fd friend_request
        (serialize_kv (
          (codes "fromUserId", to_string_int from)
          ∷ (codes "fromUsername", name_of from w.state)
          ∷ []))
        from w)

  -- The notices of pending group invites.
  unfoldable pub send_invites : ℕ → List GroupInvite → World D → World D
  send_invites fd [] w = w
  send_invites fd (inv ∷ rest) w =
      let name : Bytes = elim (lookup inv.group_id w.state.groups) [
        | none ↦ []
        | some g ↦ g.name
      ] in
      send_invites fd rest (
        send fd invite_to_group
          (serialize_kv (
            (codes "groupId", to_string_int inv.group_id)
            ∷ (codes "name", name)
            ∷ (codes "fromUserId", to_string_int inv.from_user_id)
            ∷ []))
          inv.from_user_id w)

  -- The messages that were queued while the user was offline.
  unfoldable pub send_pending : ℕ → List PendingMsg → World D → World D
  send_pending fd [] w = w
  send_pending fd (pm ∷ rest) w =
      send_pending fd rest (send fd pm.type pm.payload pm.from_user_id w)

module _ {D : Type 0} (db : Database D) (c : Context) where
  open c use {fd, current_user_id}

  unfoldable pub handle_register : Bytes → M D ℕ
  handle_register payload =
      let kv = parse_kv payload in
      let username = field (codes "username") kv in
      let password = field (codes "password") kv in
      let phone = field (codes "phone") kv in
      let enter : ℕ → M D ℕ = λ uid. do
        modify (add_user uid username password phone fd)
        log_activity (codes "REGISTER") uid (codes "username=" ++ username)
        send_message fd success (welcome uid username) uid
        pure uid
      in if is_empty username || is_empty password
        then (do send_message fd error (codes "Missing username/password") 0; pure current_user_id)
        else (do
          s ← get
          if has username s.users_by_name
              then (do
                send_message fd error (codes "Username already exists") 0
                pure current_user_id)
              else (do
                persistent ← has_db
                if persistent
                    then (do
                      created ← call (db.create_user username password phone)
                      case_option created
                          (do
                            send_message fd error (codes "Failed to create user in database") 0
                            pure current_user_id)
                          (λ uid. do _ ← call (db.update_user_online_status uid true); enter uid))
                    else (do
                      modify take_user_id
                      exec (save_users s.users_by_name)
                      enter s.next_user_id)))

  -- What LOGIN does after it released the lock.
  unfoldable pub greet : ℕ → Bytes → List ℕ → List PendingMsg → M D ℕ
  greet uid username requests queued = do
    send_message fd success (welcome uid username) uid
    log_activity (codes "LOGIN") uid (codes "username=" ++ username)
    exec (notify_friends_status_change uid true)
    exec (send_requests fd requests)
    persistent ← has_db
    if persistent
        then (do invites ← call (db.get_pending_group_invites uid); exec (send_invites fd invites))
        else pure tt
    exec (send_pending fd queued)
    pure uid

  unfoldable pub handle_login : Bytes → M D ℕ
  handle_login payload =
      let kv = parse_kv payload in
      let username = field (codes "username") kv in
      let password = field (codes "password") kv in
      let reject : M D ℕ = do
        send_message fd error (codes "Invalid credentials") 0
        pure current_user_id
      in do
        s ← get
        case_option (lookup username s.users_by_name) reject (λ u.
            if bytes_beq u.password_hash password
            then (do
              let uid = u.id
              modify (set_online uid fd)
              persistent ← has_db
              requests ←
                  if persistent
                  then (do
                    _ ← call (db.update_user_online_status uid true)
                    rs ← call (db.get_pending_requests uid)
                    modify (sync_requests uid rs)
                    pure (map (λ r. r.from_user_id) rs))
                  else pure (find_or [] uid s.friend_requests)
              let queued = find_or [] uid s.offline_messages
              modify (clear_queue uid)
              greet uid username requests queued)
            else reject)

  -- LOGOUT up to its jump to `cleanup`.
  unfoldable pub handle_logout : M D ℕ
  handle_logout = do
    if current_user_id == 0 then pure tt else (do
      modify (set_offline current_user_id)
      log_activity (codes "LOGOUT") current_user_id []
      exec (notify_friends_status_change current_user_id false))
    send_message fd success [] current_user_id
    pure current_user_id

-- The code behind the label `cleanup`, at the end of a session.
unfoldable pub cleanup : {D : Type 0} → ℕ → World D → World D
unfolding set_offline
cleanup uid w =
    if uid == 0
    then w
    else notify_friends_status_change uid false (record w { state = set_offline uid w.state })
