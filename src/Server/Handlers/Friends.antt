-- ===== src/Server/Handlers/Friends.antt =====
-- GET_FRIENDS_LIST, FRIEND_REQUEST, FRIEND_ACCEPT, FRIEND_DECLINE and UNFRIEND
-- (server-cpp/src/message_handler.cpp).
use mobile_chatting_app.Common.{
  ℕ, ◌+◌, true, false, List, [], ◌∷◌, ◌++◌, ◌==◌, if◌then◌else◌, Option, none, some, nat_eq, Map,
  lookup, insert, erase, has, find_or, length, contains, remove,
}
use mobile_chatting_app.Common.Bytes.{Bytes, codes, bytes_eq, bytes_beq}
use mobile_chatting_app.Common.Decimal.{to_string, to_string_int}
use mobile_chatting_app.Codec.Kv.{parse_kv, serialize_kv}
use mobile_chatting_app.Server.Protocol.{success, error, friend_request}
use mobile_chatting_app.Server.Data.{User, ServerState, FriendRequest}
use mobile_chatting_app.Server.Database.{Database}
use mobile_chatting_app.Server.World.{
  M, case_option, pure, ◌>>=◌, ◌>>◌, get, modify, has_db, call, send_message, log_activity, field,
  to_int, Context,
}
use mobile_chatting_app.Server.Delivery.{set_keys}
use mobile_chatting_app.Server.Handlers.Names.{
  name_of, session_name, is_friend, touch_friends, set_friend, touch_requests, add_request,
}
use mobile_chatting_app.Server.Handlers.Lookup.{Items, numbered}

-- The loops over friends and over pending requests write an id and a name for each.
unfoldable pub name_items : Bytes → Bytes → List ℕ → ℕ → ServerState → Items
name_items id_key name_key [] i s = []
name_items id_key name_key (u ∷ us) i s =
    (numbered id_key i, to_string_int u)
    ∷ (numbered name_key i, name_of u s)
    ∷ name_items id_key name_key us (i + 1) s

-- The requests of the database behind those in memory, each sender once.
unfoldable pub merge_requests : List FriendRequest → List ℕ → List ℕ
merge_requests [] pending = pending
merge_requests (r ∷ rs) pending =
    merge_requests rs
      (if contains r.from_user_id pending then pending else pending ++ (r.from_user_id ∷ []))

-- "Sync back to memory".
unfoldable pub add_requests : ℕ → List ℕ → ServerState → ServerState
add_requests to [] s = s
add_requests to (from ∷ rest) s = add_requests to rest (add_request to from s)

-- The first entry of `g_users_by_id` whose user has the name.
unfoldable pub find_username : Bytes → Map ℕ User → Option ℕ
find_username name [] = none
find_username name ((uid, u) ∷ m) =
    if bytes_beq u.username name then some uid else find_username name m

-- `vec.erase(std::remove(…), …)` on `g_friend_requests[to]`.
unfoldable pub drop_request : ℕ → ℕ → ServerState → ServerState
drop_request to from s = record s {
  friend_requests = insert to (remove from (find_or [] to s.friend_requests)) s.friend_requests;
}

-- The changes of FRIEND_ACCEPT to the globals.
unfoldable pub befriend : ℕ → ℕ → ServerState → ServerState
unfolding drop_request set_friend
befriend me other s =
    set_friend other me (set_friend me other (drop_request other me (drop_request me other s)))

-- `g_friends[a].erase(b);`
unfoldable pub erase_friend : ℕ → ℕ → ServerState → ServerState
erase_friend a b s = record s { friends = insert a (erase b (find_or [] a s.friends)) s.friends }

-- The changes of UNFRIEND to the globals.
unfoldable pub unfriend : ℕ → ℕ → ServerState → ServerState
unfolding drop_request erase_friend
unfriend me other s =
    drop_request other me (drop_request me other (erase_friend other me (erase_friend me other s)))

module _ {D : Type 0} (db : Database D) (c : Context) where
  open c use {fd, current_user_id}

  -- An answer to the requester.
  abbrev reply : ℕ → Bytes → M D ℕ
  reply type text = do send_message fd type text current_user_id; pure current_user_id

  unfoldable pub handle_get_friends_list : M D ℕ
  handle_get_friends_list = do
    modify (touch_friends current_user_id)
    s ← get
    let friends = set_keys (find_or [] current_user_id s.friends)
    let head =
        (codes "count", to_string (length friends))
        ∷ name_items (codes "id") (codes "name") friends 0 s
    let pending = find_or [] current_user_id s.friend_requests
    persistent ← has_db
    pending' ←
        if persistent
        then (do
          rs ← call (db.get_pending_requests current_user_id)
          let merged = merge_requests rs pending
          modify (touch_requests current_user_id)
          modify (add_requests current_user_id merged)
          pure merged)
        else pure pending
    t ← get
    reply success (
        serialize_kv (
          head
          ++ ((codes "pendingCount", to_string (length pending'))
              ∷ name_items (codes "req_id") (codes "req_name") pending' 0 t)))

  -- The notice of a new request to its target, if online.
  unfoldable pub announce : ℕ → M D (Unit {0})
  announce target = do
    s ← get
    case_option (lookup target s.online_clients) (pure tt) (λ target_fd.
        send_message target_fd friend_request
          (serialize_kv (
            (codes "fromUserId", to_string current_user_id)
            ∷ (codes "fromUsername", session_name current_user_id s)
            ∷ []))
          current_user_id)

  -- FRIEND_REQUEST once the target is known and is not the sender.
  unfoldable pub request_friend : ℕ → M D ℕ
  request_friend target = do
    modify (touch_friends current_user_id)
    s ← get
    if is_friend current_user_id target s then reply error (codes "Already friends") else (do
      modify (touch_friends target)
      if is_friend target current_user_id s then reply error (codes "Already friends") else (do
        persistent ← has_db
        pending ←
            if persistent then call (db.has_pending_request current_user_id target) else pure false
        if pending then reply error (codes "Friend request already sent") else (do
          saved ←
              if persistent then call (db.send_friend_request current_user_id target) else pure true
          if saved
              then (do
                modify (touch_requests target)
                if contains current_user_id (find_or [] target s.friend_requests)
                    then reply error (codes "Friend request already sent")
                    else (do
                      modify (add_request target current_user_id)
                      announce target
                      log_activity (codes "FRIEND_REQUEST") current_user_id
                          (codes "to_userId=" ++ to_string_int target)
                      reply success (codes "Friend request sent")))
              else reply error (codes "Failed to send friend request"))))

  unfoldable pub handle_friend_request : Bytes → M D ℕ
  handle_friend_request payload =
      let kv = parse_kv payload in
      let go : ℕ → M D ℕ = λ target.
        if target == current_user_id
        then reply error (codes "Cannot friend yourself")
        else request_friend target in
      if has (codes "username") kv
      then (do
        s ← get
        case_option (find_username (field (codes "username") kv) s.users_by_id)
            (reply error (codes "User not found")) go)
      else if has (codes "targetUserId") kv
      then (do target ← to_int (field (codes "targetUserId") kv); go target)
      else reply error (codes "Missing username or targetUserId")

  unfoldable pub handle_friend_accept : Bytes → M D ℕ
  handle_friend_accept payload = do
    other ← to_int (field (codes "userId") (parse_kv payload))
    persistent ← has_db
    accepted ←
        if persistent then call (db.accept_friend_request other current_user_id) else pure true
    if accepted
        then (do
          modify (befriend current_user_id other)
          reply success (codes "Friend request accepted"))
        else reply error (codes "Failed to accept friend request")

  unfoldable pub handle_friend_decline : Bytes → M D ℕ
  handle_friend_decline payload = do
    other ← to_int (field (codes "userId") (parse_kv payload))
    persistent ← has_db
    if persistent
        then (do _ ← call (db.decline_friend_request other current_user_id); pure tt)
        else pure tt
    modify (drop_request current_user_id other)
    reply success (codes "Friend request declined")

  unfoldable pub handle_unfriend : Bytes → M D ℕ
  handle_unfriend payload = do
    other ← to_int (field (codes "userId") (parse_kv payload))
    modify (unfriend current_user_id other)
    reply success (codes "Unfriended")
