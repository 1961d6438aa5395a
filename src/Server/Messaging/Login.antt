-- ===== src/Server/Messaging/Login.antt =====
-- What LOGIN does with the messages that waited (server-cpp/src/message_handler.cpp).
use mobile_chatting_app.Common.{
  ℕ, ◌≡◌, refl, sym, ap, ◌∙◌, Bool, true, List, [], ◌∷◌, ◌++◌, append-nil, append_assoc, ==_refl,
  lookup, find_or, nat_eq, lookup-insert, lookup-erase, Option, none, some, Option-cases, inl, inr,
  map, touch,
}
use mobile_chatting_app.Common.Bytes.{Bytes, codes, bytes_beq, bytes_eq}
use mobile_chatting_app.Codec.Kv.{parse_kv}
use mobile_chatting_app.Server.Protocol.{success}
use mobile_chatting_app.Server.Data.{User, ServerState, PendingMsg, FriendRequest, GroupInvite}
use mobile_chatting_app.Server.Database.{Database}
use mobile_chatting_app.Server.World.{add_activity, World, Packet, Context, field, monad, send}
use mobile_chatting_app.Server.Delivery.Laws.{queue_of}
use mobile_chatting_app.Server.Delivery.{notify_friends_status_change, set_keys}
use mobile_chatting_app.Server.Messaging.{Returns, Returns-map}
use mobile_chatting_app.Server.People.{notify_all-state}
use mobile_chatting_app.Server.Handlers.Names.{add_request}
use mobile_chatting_app.Server.Handlers.Account.{
  handle_login, greet, send_pending, send_requests, send_invites, clear_queue, set_online,
  sync_requests, welcome,
}

-- A queued message as its owner gets it.
abbrev pub delivered : ℕ → PendingMsg → Packet
delivered fd m = record { fd = fd; type = m.type; payload = m.payload; user_id = m.from_user_id }

module _ {D : Type 0} where
  send_pending-sent :
      (fd : ℕ) (ms : List PendingMsg) (w : World D)
      → (send_pending fd ms w).sent ≡ w.sent ++ map (delivered fd) ms
  unfolding send_pending
  send_pending-sent fd [] w = sym (append-nil w.sent)
  send_pending-sent fd (m ∷ ms) w =
      send_pending-sent fd ms (send fd m.type m.payload m.from_user_id w)
      ∙ append_assoc w.sent (delivered fd m ∷ []) (map (delivered fd) ms)

  send_pending-state :
      (fd : ℕ) (ms : List PendingMsg) (w : World D) → (send_pending fd ms w).state ≡ w.state
  unfolding send_pending
  send_pending-state fd [] w = refl
  send_pending-state fd (m ∷ ms) w =
      send_pending-state fd ms (send fd m.type m.payload m.from_user_id w)

  send_requests-state :
      (fd : ℕ) (us : List ℕ) (w : World D) → (send_requests fd us w).state ≡ w.state
  unfolding send_requests
  send_requests-state fd [] w = refl
  send_requests-state fd (u ∷ us) w = send_requests-state fd us _

  send_invites-state :
      (fd : ℕ) (invites : List GroupInvite) (w : World D)
      → (send_invites fd invites w).state ≡ w.state
  unfolding send_invites
  send_invites-state fd [] w = refl
  send_invites-state fd (i ∷ is) w = send_invites-state fd is _

  notify_friends-state :
      (uid : ℕ) (online : Bool) (w : World D)
      → (notify_friends_status_change uid online w).state
        ≡ record (w.state) { friends = touch [] uid w.state.friends }
  unfolding notify_friends_status_change
  notify_friends-state uid online w =
      notify_all-state (set_keys (find_or [] uid w.state.friends)) _ _ uid _

-- The same queues and the same connections.
abbrev pub SameRoutes : ServerState → ServerState → Type 0
SameRoutes s t = (s.offline_messages ≡ t.offline_messages) × (s.online_clients ≡ t.online_clients)

sync_requests-SameRoutes :
    (uid : ℕ) (rs : List FriendRequest) (s : ServerState) → SameRoutes (sync_requests uid rs s) s
unfolding sync_requests add_request
sync_requests-SameRoutes uid [] s = (refl, refl)
sync_requests-SameRoutes uid (r ∷ rs) s =
    sync_requests-SameRoutes uid rs (add_request uid r.from_user_id s)

-- LOGIN returns the user's id, the last messages it sent are those of the queue, in their order, and
-- the state it leaves has the routes of `s`.
abbrev pub Greeted : {D : Type 0} → ℕ → ℕ → List PendingMsg → ServerState → ℕ → World D → Type 0
Greeted uid fd queued s v w =
    (v ≡ uid)
    × ((before : List Packet) × (w.sent ≡ before ++ map (delivered fd) queued))
    × SameRoutes w.state s

send_pending-Greeted :
    {D : Type 0} (uid fd : ℕ) (queued : List PendingMsg) (w : World D) (s : ServerState)
    → SameRoutes w.state s
    → Greeted uid fd queued s uid (send_pending fd queued w)
send_pending-Greeted uid fd queued w s (e, f) = (
  refl,
  (w.sent, send_pending-sent fd queued w),
  (
    ap (λ t. t.offline_messages) (send_pending-state fd queued w) ∙ e,
    ap (λ t. t.online_clients) (send_pending-state fd queued w) ∙ f,
  ),
)

-- The world of `greet` before it tells the friends, and before it asks for the invites.
abbrev pub welcomed : {D : Type 0} → Context → ℕ → Bytes → World D → World D
welcomed c uid name w =
    add_activity (codes "LOGIN") uid (codes "username=" ++ name)
      (send c.fd success (welcome uid name) uid w)

abbrev pub told : {D : Type 0} → Context → ℕ → Bytes → List ℕ → World D → World D
told c uid name requests w =
    send_requests c.fd requests (notify_friends_status_change uid true (welcomed c uid name w))

told-SameRoutes :
    {D : Type 0} (c : Context) (uid : ℕ) (name : Bytes) (requests : List ℕ) (w : World D)
    → SameRoutes (told c uid name requests w).state w.state
told-SameRoutes c uid name requests w =
    let e =
      send_requests-state c.fd requests
        (notify_friends_status_change uid true (welcomed c uid name w))
      ∙ notify_friends-state uid true (welcomed c uid name w) in
    (ap (λ t. t.offline_messages) e, ap (λ t. t.online_clients) e)

module _ {D : Type 0} (db : Database D) (c : Context) where
  greet-Greeted :
      (uid : ℕ) (name : Bytes) (requests : List ℕ) (queued : List PendingMsg) (w : World D)
      → Returns (greet db c uid name requests queued w) (Greeted uid c.fd queued w.state)
  unfolding greet monad
  greet-Greeted uid name requests queued w =
      let x = told c uid name requests w in
      let routes = told-SameRoutes c uid name requests w in
      elim (Option-cases x.db) [
        | inl z ↦
            rw (Returns, z)
              (send_pending-Greeted uid c.fd queued (record x { db = none }) w.state routes)
        | inr (d, z) ↦
            let (invites, d') = db.get_pending_group_invites uid d in
            let y = record x { db = some d' } in
            let e = send_invites-state c.fd invites y in
            rw (Returns, z)
              (send_pending-Greeted uid c.fd queued (send_invites c.fd invites y) w.state (
                ap (λ t. t.offline_messages) e ∙ routes.0,
                ap (λ t. t.online_clients) e ∙ routes.1,
              ))
      ]

-- What a successful LOGIN leaves: the last messages sent are those that waited, in their order;
-- nothing waits any more; and the user's messages go to this connection.
abbrev pub LoggedIn : {D : Type 0} → ℕ → ℕ → ServerState → ℕ → World D → Type 0
LoggedIn uid fd s v w =
    (v ≡ uid)
    × ((before : List Packet) × (w.sent ≡ before ++ map (delivered fd) (queue_of uid s)))
    × (queue_of uid w.state ≡ [])
    × (lookup uid w.state.online_clients ≡ some fd)

Greeted-LoggedIn :
    {D : Type 0} (uid fd : ℕ) (s t : ServerState) (v : ℕ) (w : World D)
    → SameRoutes t (set_online uid fd s)
    → Greeted uid fd (queue_of uid s) (clear_queue uid t) v w
    → LoggedIn uid fd s v w
unfolding clear_queue set_online
Greeted-LoggedIn uid fd s t v w (offline, online) (e, before, routes) = (
  e,
  before,
  rw (routes.0, offline, queue_of, find_or, lookup-erase uid uid s.offline_messages, ==_refl uid)
      refl,
  rw (routes.1, online, lookup-insert uid uid fd s.online_clients, ==_refl uid) refl,
)

module _ {D : Type 0} (db : Database D) (c : Context) where
  -- LOGIN with the name and the password of a known user always succeeds, with and without a database:
  -- it returns the user's id, its last messages are the ones that waited for the user, in the order
  -- they were queued, the queue is empty afterwards, and the user's messages go to this connection.
  pub login-LoggedIn :
      (payload : Bytes) (u : User) (w : World D)
      → lookup (field (codes "username") (parse_kv payload)) w.state.users_by_name ≡ some u
      → bytes_beq u.password_hash (field (codes "password") (parse_kv payload)) ≡ true
      → Returns (handle_login db c payload w) (LoggedIn u.id c.fd w.state)
  unfolding handle_login monad
  login-LoggedIn payload u w found same =
      let name = field (codes "username") (parse_kv payload) in
      let after : (requests : List ℕ) (o : Option D) (t : ServerState)
          → SameRoutes t (set_online u.id c.fd w.state)
          → Returns
              (greet db c u.id name requests (queue_of u.id w.state)
                (record w { state = clear_queue u.id t; db = o }))
              (LoggedIn u.id c.fd w.state) =
        λ requests o t e.
          let x = record w { state = clear_queue u.id t; db = o } in
          Returns-map {P = Greeted u.id c.fd (queue_of u.id w.state) (clear_queue u.id t)}
            (greet db c u.id name requests (queue_of u.id w.state) x)
            (λ v w'. Greeted-LoggedIn u.id c.fd w.state t v w' e)
            (greet-Greeted db c u.id name requests (queue_of u.id w.state) x) in
      elim (Option-cases w.db) [
        | inl z ↦
            rw (Returns, found, same, z)
              (after (find_or [] u.id w.state.friend_requests) none (set_online u.id c.fd w.state)
                (refl, refl))
        | inr (d, z) ↦
            let d1 = (db.update_user_online_status u.id true d).1 in
            let (rs, d2) = db.get_pending_requests u.id d1 in
            rw (Returns, found, same, z)
              (after (map (λ r. r.from_user_id) rs) (some d2)
                (sync_requests u.id rs (set_online u.id c.fd w.state))
                (sync_requests-SameRoutes u.id rs (set_online u.id c.fd w.state)))
      ]
