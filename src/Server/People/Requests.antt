-- ===== src/Server/People/Requests.antt =====
-- All requests but REGISTER, FRIEND_ACCEPT and UNFRIEND leave the accounts and the friendships
-- alone.
use mobile_chatting_app.Common.{
  ℕ, ◌+◌, if◌then◌else◌, ◌≡◌, ◌≢◌, refl, List, [], ◌∷◌, ◌==◌, Map, nat_eq, Bool-cases, inl, inr,
  leb, ==_iff,
}
use mobile_chatting_app.Common.Bytes.{Bytes}
use mobile_chatting_app.Server.Data.{ServerState, User, PendingMsg, FriendRequest, GroupInvite}
use mobile_chatting_app.Server.Database.{Database}
use mobile_chatting_app.Server.Protocol.{register, friend_accept, unfriend}
use mobile_chatting_app.Server.World.{World, M, Context}
use mobile_chatting_app.Server.Frame.{Keeps, keeping, Keeps-exec, Keeps-then, Keeps-pure}
use mobile_chatting_app.Server.People.{
  SamePeople, people, same_fields, delivery_steps, touch_friends-SamePeople, add_request-SamePeople,
  decline-Keeps, request-Keeps, friends_list-Keeps,
}
use mobile_chatting_app.Server.People.Groups as G
use mobile_chatting_app.Server.Handlers.Names.{touch_friends, add_request}
use mobile_chatting_app.Server.Handlers.Lookup.{
  Items, matches, search_loop, all_users_loop, answer, handle_search_user, handle_get_all_users,
}
use mobile_chatting_app.Server.Handlers.Account.{
  set_online, set_offline, clear_queue, sync_requests, send_requests, send_invites, send_pending,
  greet, handle_login, handle_logout,
}
use mobile_chatting_app.Server.Handlers.Messages.{
  handle_direct_message, handle_get_conversation_history, handle_get_group_history,
  handle_delete_conversation,
}
use mobile_chatting_app.Server.Session.{handle, handle_group}

set_online-SamePeople : (uid fd : ℕ) (s : ServerState) → SamePeople s (set_online uid fd s)
unfolding set_online
set_online-SamePeople uid fd s = same_fields _ _ refl refl refl refl

pub set_offline-SamePeople : (uid : ℕ) (s : ServerState) → SamePeople s (set_offline uid s)
unfolding set_offline
set_offline-SamePeople uid s = same_fields _ _ refl refl refl refl

clear_queue-SamePeople : (uid : ℕ) (s : ServerState) → SamePeople s (clear_queue uid s)
unfolding clear_queue
clear_queue-SamePeople uid s = same_fields _ _ refl refl refl refl

sync_requests-SamePeople :
    (uid : ℕ) (rs : List FriendRequest) (s : ServerState) → SamePeople s (sync_requests uid rs s)
unfolding sync_requests
sync_requests-SamePeople uid [] s = people.same_refl s
sync_requests-SamePeople uid (r ∷ rs) s =
    people.same_trans s (add_request uid r.from_user_id s) _
      (add_request-SamePeople uid r.from_user_id s)
      (sync_requests-SamePeople uid rs (add_request uid r.from_user_id s))

same_state : (s t : ServerState) → t ≡ s → SamePeople s t
same_state s t e = rw e (people.same_refl s)

module _ {D : Type 0} where
  send_requests-state :
      (fd : ℕ) (us : List ℕ) (w : World D) → (send_requests fd us w).state ≡ w.state
  unfolding send_requests
  send_requests-state fd [] w = refl
  send_requests-state fd (u ∷ us) w = send_requests-state fd us _

  send_invites-state :
      (fd : ℕ) (is : List GroupInvite) (w : World D) → (send_invites fd is w).state ≡ w.state
  unfolding send_invites
  send_invites-state fd [] w = refl
  send_invites-state fd (i ∷ is) w = send_invites-state fd is _

  send_pending-state :
      (fd : ℕ) (ms : List PendingMsg) (w : World D) → (send_pending fd ms w).state ≡ w.state
  unfolding send_pending
  send_pending-state fd [] w = refl
  send_pending-state fd (m ∷ ms) w = send_pending-state fd ms _

  send_requests-SamePeople :
      (fd : ℕ) (us : List ℕ) (w : World D) → SamePeople w.state (send_requests fd us w).state
  send_requests-SamePeople fd us w = same_state w.state _ (send_requests-state fd us w)

  send_invites-SamePeople :
      (fd : ℕ) (is : List GroupInvite) (w : World D)
      → SamePeople w.state (send_invites fd is w).state
  send_invites-SamePeople fd is w = same_state w.state _ (send_invites-state fd is w)

  send_pending-SamePeople :
      (fd : ℕ) (ms : List PendingMsg) (w : World D)
      → SamePeople w.state (send_pending fd ms w).state
  send_pending-SamePeople fd ms w = same_state w.state _ (send_pending-state fd ms w)

search_loop-SamePeople :
    (me : ℕ) (query : Bytes) (m : Map Bytes User) (n : ℕ) (items : Items) (s : ServerState)
    → SamePeople s (search_loop me query m n items s).2
unfolding search_loop
search_loop-SamePeople me query [] n items s = people.same_refl s
search_loop-SamePeople me query ((k, u) ∷ m) n items s =
    let skip = search_loop-SamePeople me query m n items s in
    elim (Bool-cases (u.id == me)) [
      | inl self ↦ rw self skip
      | inr other ↦ rw other (elim (Bool-cases (matches query u)) [
        | inr miss ↦ rw miss skip
        | inl hit ↦ rw hit (elim (Bool-cases (leb 20 (n + 1))) [
          | inl full ↦ rw full (touch_friends-SamePeople me s)
          | inr more ↦ rw more (
              people.same_trans s (touch_friends me s) _ (touch_friends-SamePeople me s)
                (search_loop-SamePeople me query m (n + 1) _ (touch_friends me s)))
        ])
      ])
    ]

all_users_loop-SamePeople :
    (me : ℕ) (m : Map ℕ User) (n : ℕ) (items : Items) (s : ServerState)
    → SamePeople s (all_users_loop me m n items s).2
unfolding all_users_loop
all_users_loop-SamePeople me [] n items s = people.same_refl s
all_users_loop-SamePeople me ((k, u) ∷ m) n items s = elim (Bool-cases (k == me)) [
  | inl self ↦ rw self (all_users_loop-SamePeople me m n items s)
  | inr other ↦ rw other (
      people.same_trans s (touch_friends me s) _ (touch_friends-SamePeople me s)
        (all_users_loop-SamePeople me m (n + 1) _ (touch_friends me s)))
]

ruleset session_steps = (
  delivery_steps, set_online-SamePeople, set_offline-SamePeople, clear_queue-SamePeople,
  sync_requests-SamePeople, send_requests-SamePeople, send_invites-SamePeople,
  send_pending-SamePeople,
)

module _ {D : Type 0} (db : Database D) (c : Context) where
  greet-Keeps :
      (uid : ℕ) (name : Bytes) (us : List ℕ) (ms : List PendingMsg)
      → Keeps people (greet db c uid name us ms)
  unfolding greet
  greet-Keeps uid name us ms = search session_steps depth 20

  login-Keeps : (payload : Bytes) → Keeps people (handle_login db c payload)
  unfolding handle_login
  login-Keeps payload = search (session_steps, greet-Keeps) depth 20

  logout-Keeps : Keeps people (handle_logout db c)
  unfolding handle_logout
  logout-Keeps = search session_steps depth 20

  search-Keeps : (payload : Bytes) → Keeps {D = D} people (handle_search_user c payload)
  unfolding handle_search_user
  search-Keeps payload =
      Keeps-then
        (Keeps-exec _ λ w.
          unfold answer in
          search_loop-SamePeople c.requester_id _ w.state.users_by_name 0 [] w.state)
        (Keeps-pure c.current_user_id)

  all_users-Keeps : Keeps {D = D} people (handle_get_all_users c)
  unfolding handle_get_all_users
  all_users-Keeps =
      Keeps-then
        (Keeps-exec _ λ w.
          unfold answer in
          all_users_loop-SamePeople c.requester_id w.state.users_by_id 0 [] w.state)
        (Keeps-pure c.current_user_id)

  pub direct-Keeps : (payload : Bytes) → Keeps people (handle_direct_message db c payload)
  unfolding handle_direct_message
  direct-Keeps payload = search session_steps depth 20

  history-Keeps : (payload : Bytes) → Keeps people (handle_get_conversation_history db c payload)
  unfolding handle_get_conversation_history
  history-Keeps payload = search session_steps depth 20

  group_history-Keeps : (payload : Bytes) → Keeps people (handle_get_group_history db c payload)
  unfolding handle_get_group_history
  group_history-Keeps payload = search session_steps depth 20

  delete-Keeps : (payload : Bytes) → Keeps people (handle_delete_conversation db c payload)
  unfolding handle_delete_conversation
  delete-Keeps payload = search session_steps depth 20

  group-Keeps : (type : ℕ) (payload : Bytes) → Keeps people (handle_group db c type payload)
  unfolding handle_group
  group-Keeps type payload =
      search
        (
          keeping, G.create-Keeps, G.invite-Keeps, G.accept-Keeps, G.decline-Keeps, G.rename-Keeps,
          G.nickname-Keeps, G.remove-Keeps, G.make_admin-Keeps, G.leave-Keeps, G.message-Keeps,
        )
        depth 20

Keeps-unless :
    {D A : Type 0} (t n : ℕ) (x : M D A) {y : M D A}
    → t ≢ n
    → Keeps people y
    → Keeps people (if t == n then x else y)
Keeps-unless t n x h k = elim (Bool-cases (t == n)) [
  | inl same ↦ absurd (h ((==_iff t n).0 same))
  | inr other ↦ rw other k
]

-- Every request but REGISTER, FRIEND_ACCEPT and UNFRIEND leaves the accounts as they are and the
-- same users friends, in memory, with and without a database.
pub handle-SamePeople :
    {D : Type 0} (db : Database D) (c : Context) (type : ℕ) (payload : Bytes)
    → type ≢ register
    → type ≢ friend_accept
    → type ≢ unfriend
    → Keeps people (handle db c type payload)
unfolding handle
handle-SamePeople db c type payload h1 h2 h3 =
    search
      (
        keeping, Keeps-unless, login-Keeps, logout-Keeps, search-Keeps, all_users-Keeps,
        friends_list-Keeps, request-Keeps, decline-Keeps, direct-Keeps, history-Keeps,
        group_history-Keeps, G.list-Keeps, delete-Keeps, group-Keeps,
      )
      depth 40
