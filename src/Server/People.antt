-- ===== src/Server/People.antt =====
-- Which requests change the accounts and the friendships (server-cpp/src/message_handler.cpp).
pub mod Groups
pub mod Requests
use mobile_chatting_app.Common.{
  ℕ, Bool, true, false, ◌&&◌, ◌||◌, ◌==◌, if◌then◌else◌, Option, none, some, ◌≡◌, refl, ◌∙◌, arith,
  List, [], ◌∷◌, Map, lookup, insert, find_or, touch, nat_eq, lookup-insert, lookup-erase,
  Bool-cases, inl, inr,
}
use mobile_chatting_app.Common.Bytes.{Bytes}
use mobile_chatting_app.Server.Data.{ServerState, User, minus_one}
use mobile_chatting_app.Server.Database.{Database}
use mobile_chatting_app.Server.World.{World, M, Context, ◌>>=◌, ◌>>◌}
use mobile_chatting_app.Server.Frame.{
  Frame, Keeps, keeping, Keeps-modify, Keeps-exec, Keeps-then, Keeps-bind,
}
use mobile_chatting_app.Server.Delivery.{
  fd_of, deliver, broadcast, notify, notify_all, set_keys, notify_friends_status_change,
}
use mobile_chatting_app.Server.Handlers.Names.{
  is_friend, touch_friends, touch_requests, set_friend, add_request,
}
use mobile_chatting_app.Server.Handlers.Friends.{
  drop_request, add_requests, announce, request_friend, handle_friend_request,
  handle_friend_decline, handle_get_friends_list,
}

-- The accounts are the same, and the same users are friends.
pub record SamePeople (s t : ServerState) : Type 0 where
  pub names : s.users_by_name ≡ t.users_by_name
  pub ids : s.users_by_id ≡ t.users_by_id
  pub next_id : s.next_user_id ≡ t.next_user_id
  pub friendship : (a b : ℕ) → is_friend a b s ≡ is_friend a b t

abbrev pub people : Frame
people = record {
  Same = SamePeople;
  same_refl = λ s. record { names = refl; ids = refl; next_id = refl; friendship = λ a b. refl };
  same_trans = λ s t u h k. record {
    names = h.names ∙ k.names;
    ids = h.ids ∙ k.ids;
    next_id = h.next_id ∙ k.next_id;
    friendship = λ a b. h.friendship a b ∙ k.friendship a b;
  };
}

-- Where the three fields of the accounts and the field `friends` are the same.
pub same_fields :
    (s t : ServerState)
    → s.users_by_name ≡ t.users_by_name
    → s.users_by_id ≡ t.users_by_id
    → s.next_user_id ≡ t.next_user_id
    → s.friends ≡ t.friends
    → SamePeople s t
unfolding is_friend
same_fields s t hn hi hx hf = record { names = hn; ids = hi; next_id = hx; friendship = λ a b. cc }

pub touch_friends-SamePeople : (a : ℕ) (s : ServerState) → SamePeople s (touch_friends a s)
unfolding touch_friends is_friend
touch_friends-SamePeople a s = record {
  names = refl;
  ids = refl;
  next_id = refl;
  friendship = λ b c. ground (arith, lookup-insert a b (find_or [] a s.friends) s.friends);
}

pub add_request-SamePeople : (to from : ℕ) (s : ServerState) → SamePeople s (add_request to from s)
unfolding add_request
add_request-SamePeople to from s = same_fields _ _ refl refl refl refl

pub drop_request-SamePeople :
    (to from : ℕ) (s : ServerState) → SamePeople s (drop_request to from s)
unfolding drop_request
drop_request-SamePeople to from s = same_fields _ _ refl refl refl refl

pub touch_requests-SamePeople : (to : ℕ) (s : ServerState) → SamePeople s (touch_requests to s)
unfolding touch_requests
touch_requests-SamePeople to s = same_fields _ _ refl refl refl refl

pub add_requests-SamePeople :
    (to : ℕ) (from : List ℕ) (s : ServerState) → SamePeople s (add_requests to from s)
unfolding add_requests
add_requests-SamePeople to [] s = people.same_refl s
add_requests-SamePeople to (f ∷ fs) s =
    people.same_trans s (add_request to f s) (add_requests to fs (add_request to f s))
      (add_request-SamePeople to f s) (add_requests-SamePeople to fs (add_request to f s))

module _ {D : Type 0} where
  pub deliver-SamePeople :
      (u type : ℕ) (text : Bytes) (from : ℕ) (w : World D)
      → SamePeople w.state (deliver u type text from w).state
  unfolding deliver
  deliver-SamePeople u type text from w = elim (Bool-cases (fd_of u w.state == minus_one)) [
    | inl offline ↦ rw offline (same_fields _ _ refl refl refl refl)
    | inr online ↦ rw online (people.same_refl w.state)
  ]

  pub broadcast-SamePeople :
      (us : List ℕ) (type : ℕ) (text : Bytes) (from : ℕ) (w : World D)
      → SamePeople w.state (broadcast us type text from w).state
  unfolding broadcast
  broadcast-SamePeople [] type text from w = people.same_refl w.state
  broadcast-SamePeople (u ∷ us) type text from w =
      people.same_trans w.state (deliver u type text from w).state _
        (deliver-SamePeople u type text from w)
        (broadcast-SamePeople us type text from (deliver u type text from w))

  -- A function that only sends.
  notify-state :
      (u type : ℕ) (text : Bytes) (from : ℕ) (w : World D)
      → (notify u type text from w).state ≡ w.state
  unfolding notify
  notify-state u type text from w = ground arith

  pub notify_all-state :
      (us : List ℕ) (type : ℕ) (text : Bytes) (from : ℕ) (w : World D)
      → (notify_all us type text from w).state ≡ w.state
  unfolding notify_all
  notify_all-state [] type text from w = refl
  notify_all-state (u ∷ us) type text from w =
      notify_all-state us type text from (notify u type text from w)
      ∙ notify-state u type text from w

  pub notify_friends-SamePeople :
      (uid : ℕ) (online : Bool) (w : World D)
      → SamePeople w.state (notify_friends_status_change uid online w).state
  unfolding notify_friends_status_change
  notify_friends-SamePeople uid online w =
      rw (notify_all-state (set_keys (find_or [] uid w.state.friends)) _ _ uid _)
        (unfold touch_friends in touch_friends-SamePeople uid w.state)

pub ruleset friend_steps = (
  keeping, Keeps-modify, touch_friends-SamePeople, touch_requests-SamePeople,
  add_request-SamePeople, add_requests-SamePeople, drop_request-SamePeople,
)

pub ruleset delivery_steps = (
  keeping, Keeps-exec, Keeps-modify, deliver-SamePeople, broadcast-SamePeople,
  notify_friends-SamePeople,
)

module _ {D : Type 0} (db : Database D) (c : Context) where
  pub decline-Keeps : (payload : Bytes) → Keeps people (handle_friend_decline db c payload)
  unfolding handle_friend_decline
  decline-Keeps payload = search friend_steps depth 20

  announce-Keeps : (target : ℕ) → Keeps people (announce db c target)
  unfolding announce
  announce-Keeps target = search friend_steps depth 20

  request_friend-Keeps : (target : ℕ) → Keeps people (request_friend db c target)
  unfolding request_friend
  request_friend-Keeps target = search (friend_steps, announce-Keeps) depth 40

  pub request-Keeps : (payload : Bytes) → Keeps people (handle_friend_request db c payload)
  unfolding handle_friend_request
  request-Keeps payload = search (friend_steps, request_friend-Keeps) depth 20

  pub friends_list-Keeps : Keeps people (handle_get_friends_list db c)
  unfolding handle_get_friends_list
  friends_list-Keeps = search friend_steps depth 20
