-- ===== src/Server/Friendship.antt =====
-- FRIEND_ACCEPT and UNFRIEND make and end friendships (server-cpp/src/message_handler.cpp), and
-- friendship is mutual after every request and every session.
use mobile_chatting_app.Common.{
  ℕ, Bool, true, false, ◌&&◌, ◌||◌, ◌==◌, ==_iff, if◌then◌else◌, ◌≡◌, ◌≢◌, refl, sym, ◌∙◌, arith,
  [], Map, insert, erase, find_or, nat_eq, lookup-insert, lookup-erase, Bool-cases, inl, inr, subst,
}
use mobile_chatting_app.Common.Bytes.{Bytes}
use mobile_chatting_app.Server.Data.{ServerState, User}
use mobile_chatting_app.Server.Database.{Database}
use mobile_chatting_app.Server.Protocol.{register, friend_accept, unfriend}
use mobile_chatting_app.Server.World.{World, Result, ok, fault, M, Context}
use mobile_chatting_app.Server.Frame.{Frame, Keeps, After, keeping, Keeps-modify, Keeps-exec}
use mobile_chatting_app.Server.People.{SamePeople, people, touch_friends-SamePeople}
use mobile_chatting_app.Server.Handlers.Names.{is_friend, set_friend, touch_friends}
use mobile_chatting_app.Server.Handlers.Friends.{
  drop_request, befriend, erase_friend, handle_friend_accept, handle_unfriend,
}
use mobile_chatting_app.Server.Handlers.Friends as F
use mobile_chatting_app.Server.Handlers.Account.{
  add_user, save_users, take_user_id, handle_register,
}
use mobile_chatting_app.Server.Session.{handle}
use mobile_chatting_app.Server.People.Requests.{handle-SamePeople}

is_friend-set_friend :
    (me other : ℕ) (s : ServerState) (a b : ℕ)
    → is_friend a b (set_friend me other s) ≡ (me == a && other == b || is_friend a b s)
unfolding is_friend set_friend
is_friend-set_friend me other s a b = ground (
  arith,
  lookup-insert me a (insert other true (find_or [] me s.friends)) s.friends,
  lookup-insert other b true (find_or [] me s.friends),
)

is_friend-erase_friend :
    (me other : ℕ) (s : ServerState) (a b : ℕ)
    → is_friend a b (erase_friend me other s)
      ≡ (if me == a && other == b then false else is_friend a b s)
unfolding is_friend erase_friend
is_friend-erase_friend me other s a b = ground (
  arith,
  lookup-insert me a (erase other (find_or [] me s.friends)) s.friends,
  lookup-erase other b (find_or [] me s.friends),
)

is_friend-drop_request :
    (to from : ℕ) (s : ServerState) (a b : ℕ)
    → is_friend a b (drop_request to from s) ≡ is_friend a b s
unfolding is_friend drop_request
is_friend-drop_request to from s a b = refl

-- The pair of the two users, in one order or the other.
abbrev pub is_pair : ℕ → ℕ → ℕ → ℕ → Bool
is_pair me other a b = me == a && other == b || other == a && me == b

-- FRIEND_ACCEPT makes the two users friends of one another, and changes no other friendship.
pub is_friend-befriend :
    (me other : ℕ) (s : ServerState) (a b : ℕ)
    → is_friend a b (befriend me other s) ≡ (is_pair me other a b || is_friend a b s)
unfolding befriend
is_friend-befriend me other s a b = ground (
  arith,
  is_friend-set_friend other me
      (set_friend me other (drop_request other me (drop_request me other s))) a b,
  is_friend-set_friend me other (drop_request other me (drop_request me other s)) a b,
  is_friend-drop_request other me (drop_request me other s) a b,
  is_friend-drop_request me other s a b,
)

-- UNFRIEND ends the friendship on both sides, and changes no other.
pub is_friend-unfriend :
    (me other : ℕ) (s : ServerState) (a b : ℕ)
    → is_friend a b (F.unfriend me other s)
      ≡ (if is_pair me other a b then false else is_friend a b s)
unfolding F.unfriend
is_friend-unfriend me other s a b = ground (
  arith,
  is_friend-erase_friend other me (erase_friend me other s) a b,
  is_friend-erase_friend me other s a b,
  is_friend-drop_request other me
      (drop_request me other (erase_friend other me (erase_friend me other s))) a b,
  is_friend-drop_request me other (erase_friend other me (erase_friend me other s)) a b,
)

-- Each friend of a user has the user as a friend.
abbrev pub IsMutual : ServerState → Type 0
IsMutual s = (a b : ℕ) → is_friend a b s ≡ is_friend b a s

abbrev pub mutual_frame : Frame
mutual_frame = record {
  Same = λ s t. IsMutual s → IsMutual t;
  same_refl = λ s h. h;
  same_trans = λ s t u f g h. g (f h);
}

pub SamePeople-IsMutual : (s t : ServerState) → SamePeople s t → IsMutual s → IsMutual t
SamePeople-IsMutual s t same h a b = sym (same.friendship a b) ∙ h a b ∙ same.friendship b a

befriend-IsMutual : (me other : ℕ) (s : ServerState) → IsMutual s → IsMutual (befriend me other s)
befriend-IsMutual me other s h a b =
    ground (arith, is_friend-befriend me other s a b, is_friend-befriend me other s b a, h a b)

unfriend-IsMutual : (me other : ℕ) (s : ServerState) → IsMutual s → IsMutual (F.unfriend me other s)
unfriend-IsMutual me other s h a b =
    ground (arith, is_friend-unfriend me other s a b, is_friend-unfriend me other s b a, h a b)

weaken : {D A : Type 0} {m : M D A} → Keeps people m → Keeps mutual_frame m
weaken {D = D} {A = A} {m = m} k = record { keeps = λ w. go w.state (m w) (k.keeps w) }
  where
    go :
        (s : ServerState) (r : Result D A)
        → After r (λ _ w'. SamePeople s w'.state)
        → After r (λ _ w'. IsMutual s → IsMutual w'.state)
    go s fault h = tt
    go s (ok a w) h = SamePeople-IsMutual s w.state h

add_user-IsMutual :
    (uid : ℕ) (name password phone : Bytes) (fd : ℕ) (s : ServerState)
    → IsMutual s
    → IsMutual (add_user uid name password phone fd s)
unfolding add_user
add_user-IsMutual uid name password phone fd s h =
    unfold is_friend touch_friends in
    SamePeople-IsMutual s (touch_friends uid s) (touch_friends-SamePeople uid s) h

take_user_id-IsMutual : (s : ServerState) → IsMutual s → IsMutual (take_user_id s)
unfolding take_user_id is_friend
take_user_id-IsMutual s h = h

save_users-IsMutual :
    {D : Type 0} (users : Map Bytes User) (w : World D)
    → IsMutual w.state
    → IsMutual (save_users users w).state
unfolding save_users
save_users-IsMutual users w h = h

module _ {D : Type 0} (db : Database D) (c : Context) where
  register-Keeps : (payload : Bytes) → Keeps mutual_frame (handle_register db c payload)
  unfolding handle_register
  register-Keeps payload =
      search
        (
          keeping, Keeps-modify, Keeps-exec, add_user-IsMutual, take_user_id-IsMutual,
          save_users-IsMutual,
        )
        depth 30

  accept-Keeps : (payload : Bytes) → Keeps mutual_frame (handle_friend_accept db c payload)
  unfolding handle_friend_accept
  accept-Keeps payload = search (keeping, Keeps-modify, befriend-IsMutual) depth 20

  unfriend-Keeps : (payload : Bytes) → Keeps mutual_frame (handle_unfriend db c payload)
  unfolding handle_unfriend
  unfriend-Keeps payload = search (keeping, Keeps-modify, unfriend-IsMutual) depth 20

-- Friendship is mutual after every request, if it was before, with and without a database.
pub handle-IsMutual :
    {D : Type 0} (db : Database D) (c : Context) (type : ℕ) (payload : Bytes)
    → Keeps mutual_frame (handle db c type payload)
handle-IsMutual db c type payload = elim (Bool-cases (type == register)) [
  | inl e ↦ at register e (unfold handle in register-Keeps db c payload)
  | inr h1 ↦ elim (Bool-cases (type == friend_accept)) [
    | inl e ↦ at friend_accept e (unfold handle in accept-Keeps db c payload)
    | inr h2 ↦ elim (Bool-cases (type == unfriend)) [
      | inl e ↦ at unfriend e (unfold handle in unfriend-Keeps db c payload)
      | inr h3 ↦ weaken (handle-SamePeople db c type payload (differ h1) (differ h2) (differ h3))
    ]
  ]
]
  where
    at :
        (n : ℕ)
        → (type == n) ≡ true
        → Keeps mutual_frame (handle db c n payload)
        → Keeps mutual_frame (handle db c type payload)
    at n e k = subst (λ t. Keeps mutual_frame (handle db c t payload)) (sym ((==_iff type n).0 e)) k

    differ : {n : ℕ} → (type == n) ≡ false → type ≢ n
    differ h e = ground arith
