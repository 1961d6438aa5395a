-- ===== src/Server/Accounts/Lasting.antt =====
-- An account, once made, stays as it is (server-cpp/src/message_handler.cpp).
use mobile_chatting_app.Common.{
  ℕ, true, false, ◌||◌, ◌==◌, ==_iff, ◌≡◌, ◌≢◌, sym, ap, ◌∙◌, arith, has, lookup, lookup-insert,
  Bool-cases, Option-cases, Option, none, some, inl, inr, subst, nat_eq, refl, ◌⊎◌,
}
use mathlib.Core.Option.{some-injective}
use mobile_chatting_app.Common.Bytes.{Bytes, codes, bytes_eq, bytes_beq, bytes_beq_iff, is_empty}
use mobile_chatting_app.Codec.Kv.{parse_kv}
use mobile_chatting_app.Server.Data.{ServerState, User}
use mobile_chatting_app.Server.Database.{Database}
use mobile_chatting_app.Server.Protocol.{register, friend_accept, unfriend}
use mobile_chatting_app.Server.World.{Result, ok, fault, M, Context, field, monad}
use mobile_chatting_app.Server.Frame.{Frame, Keeps, After, keeping, Keeps-modify}
use mobile_chatting_app.Server.People.{SamePeople, people}
use mobile_chatting_app.Server.Handlers.Friends.{befriend, handle_friend_accept, handle_unfriend}
use mobile_chatting_app.Server.Handlers.Friends as F
use mobile_chatting_app.Server.Handlers.Account.{
  add_user, save_users, take_user_id, handle_register,
}
use mobile_chatting_app.Server.Session.{handle}
use mobile_chatting_app.Server.People.Requests.{handle-SamePeople}

-- Each account of `s` is in `t` under its name, unchanged; and an id of `s` leads in `t` to the same
-- account, or to one whose name was free in `s`.
abbrev pub SameNames : ServerState → ServerState → Type 0
SameNames s t =
    (name : Bytes) (u : User)
    → lookup name s.users_by_name ≡ some u
    → lookup name t.users_by_name ≡ some u

abbrev pub Leads : ServerState → User → Option User → Type 0
Leads s u none = ⊥
Leads s u (some v) = (v ≡ u) ⊎ (lookup v.username s.users_by_name ≡ none)

abbrev pub SameIds : ServerState → ServerState → Type 0
SameIds s t =
    (i : ℕ) (u : User) → lookup i s.users_by_id ≡ some u → Leads s u (lookup i t.users_by_id)

abbrev pub Lasts : ServerState → ServerState → Type 0
Lasts s t = SameNames s t × SameIds s t

-- A name that is free later was free before.
free_before :
    (s t : ServerState) (name : Bytes)
    → SameNames s t
    → lookup name t.users_by_name ≡ none
    → lookup name s.users_by_name ≡ none
free_before s t name h e = elim (Option-cases (lookup name s.users_by_name)) [
  | inl free ↦ free
  | inr (u, there) ↦ absurd (ground (arith, e, h name u there))
]

pub Leads-trans :
    (s t : ServerState) (u : User) (o p : Option User)
    → SameNames s t
    → Leads s u o
    → ((v : User) → o ≡ some v → Leads t v p)
    → Leads s u p
Leads-trans s t u none p h k f = absurd k
Leads-trans s t u (some v) p h k f = go p (f v refl) k
  where
    go :
        (p : Option User)
        → Leads t v p
        → (v ≡ u) ⊎ (lookup v.username s.users_by_name ≡ none)
        → Leads s u p
    go none l k = l
    go (some x) (inl same) k =
        subst (λ y. (y ≡ u) ⊎ (lookup y.username s.users_by_name ≡ none)) (sym same) k
    go (some x) (inr free) k = inr (free_before s t x.username h free)

pub Leads-refl : (s : ServerState) (u : User) (o : Option User) → o ≡ some u → Leads s u o
Leads-refl s u none e = absurd (ground (arith, e))
Leads-refl s u (some v) e = inl (some-injective v u e)

abbrev pub lasting : Frame
lasting = record {
  Same = Lasts;
  same_refl = λ s. (λ name u h. h, λ i u h. Leads-refl s u (lookup i s.users_by_id) h);
  same_trans = λ s t v f g. (
    λ name u h. g.0 name u (f.0 name u h),
    λ i u h.
        Leads-trans s t u (lookup i t.users_by_id) (lookup i v.users_by_id) f.0 (f.1 i u h) (g.1 i),
  );
}

-- Where both tables are the same.
same_tables-Lasts :
    (s t : ServerState)
    → s.users_by_name ≡ t.users_by_name
    → s.users_by_id ≡ t.users_by_id
    → Lasts s t
same_tables-Lasts s t names ids = (
  λ name u h. subst (λ m. lookup name m ≡ some u) names h,
  λ i u h. Leads-refl s u (lookup i t.users_by_id) (subst (λ m. lookup i m ≡ some u) ids h),
)

pub SamePeople-Lasts : (s t : ServerState) → SamePeople s t → Lasts s t
SamePeople-Lasts s t same = same_tables-Lasts s t same.names same.ids

pub Keeps-Lasts : {D A : Type 0} {m : M D A} → Keeps people m → Keeps lasting m
Keeps-Lasts {D = D} {A = A} {m = m} k = record { keeps = λ w. go w.state (m w) (k.keeps w) }
  where
    go :
        (s : ServerState) (r : Result D A)
        → After r (λ _ w'. SamePeople s w'.state)
        → After r (λ _ w'. Lasts s w'.state)
    go s fault h = tt
    go s (ok a w) h = SamePeople-Lasts s w.state h

befriend-Lasts : (me other : ℕ) (s : ServerState) → Lasts s (befriend me other s)
unfolding befriend
befriend-Lasts me other s = same_tables-Lasts s (befriend me other s) refl refl

unfriend-Lasts : (me other : ℕ) (s : ServerState) → Lasts s (F.unfriend me other s)
unfolding F.unfriend
unfriend-Lasts me other s = same_tables-Lasts s (F.unfriend me other s) refl refl

-- A new name leaves the other names as they are.
add_user-Lasts :
    (uid : ℕ) (username password phone : Bytes) (fd : ℕ) (s : ServerState)
    → has username s.users_by_name ≡ false
    → Lasts s (add_user uid username password phone fd s)
unfolding add_user
add_user-Lasts uid username password phone fd s free = (
  λ name u h.
      lookup-insert username name _ s.users_by_name ∙ elim (Bool-cases (bytes_beq username name)) [
        | inr other ↦ rw (other) h
        | inl same ↦
            let there : has username s.users_by_name ≡ true =
              subst (λ n. has n s.users_by_name ≡ true) (sym ((bytes_beq_iff username name).0 same))
                (ap (λ o. elim o [ none ↦ false | some _ ↦ true ]) h) in
            absurd (ground (arith, free, there))
      ],
  λ i u h.
      let new : User = record {
        id = uid;
        username = username;
        password_hash = password;
        phone = phone;
        socket_fd = fd;
        is_online = true;
        last_seen = 0;
      } in
      subst (Leads s u) (sym (lookup-insert uid i new s.users_by_id))
        (elim (Bool-cases (uid == i)) [
          | inr other ↦ rw (other) (Leads-refl s u (lookup i s.users_by_id) h)
          | inl same ↦ rw (same) (inr (ground (arith, free)))
        ]),
)

module _ {D : Type 0} (db : Database D) (c : Context) where
  register-Keeps : (payload : Bytes) → Keeps lasting (handle_register db c payload)
  unfolding handle_register monad take_user_id save_users
  register-Keeps payload = record {
    keeps = λ w.
        let username = field (codes "username") (parse_kv payload) in
        let password = field (codes "password") (parse_kv payload) in
        elim (Bool-cases (is_empty username || is_empty password)) [
          | inl missing ↦ rw (After, missing) (lasting.same_refl w.state)
          | inr given ↦ elim (Bool-cases (has username w.state.users_by_name)) [
            | inl taken ↦ rw (After, given, taken) (lasting.same_refl w.state)
            | inr free ↦ elim (Option-cases w.db) [
              | inl z ↦
                  rw (After, given, free, z)
                    (add_user-Lasts w.state.next_user_id username password
                      (field (codes "phone") (parse_kv payload)) c.fd (take_user_id w.state) free)
              | inr (d, z) ↦
                  elim (Option-cases
                    (db.create_user username password (field (codes "phone") (parse_kv payload))
                      d).0) [
                        | inl failed ↦
                            rw (After, given, free, z, failed) (lasting.same_refl w.state)
                        | inr (uid, created) ↦
                            rw (After, given, free, z, created)
                              (add_user-Lasts uid username password
                                (field (codes "phone") (parse_kv payload)) c.fd w.state free)
                      ]
            ]
          ]
        ];
  }

  accept-Keeps : (payload : Bytes) → Keeps lasting (handle_friend_accept db c payload)
  unfolding handle_friend_accept
  accept-Keeps payload = search (keeping, Keeps-modify, befriend-Lasts) depth 20

  unfriend-Keeps : (payload : Bytes) → Keeps lasting (handle_unfriend db c payload)
  unfolding handle_unfriend
  unfriend-Keeps payload = search (keeping, Keeps-modify, unfriend-Lasts) depth 20

-- Every request that ends without a fault leaves each account as `Lasts` says.
pub handle-Lasts :
    {D : Type 0} (db : Database D) (c : Context) (type : ℕ) (payload : Bytes)
    → Keeps lasting (handle db c type payload)
handle-Lasts db c type payload = elim (Bool-cases (type == register)) [
  | inl e ↦ at register e (unfold handle in register-Keeps db c payload)
  | inr h1 ↦ elim (Bool-cases (type == friend_accept)) [
    | inl e ↦ at friend_accept e (unfold handle in accept-Keeps db c payload)
    | inr h2 ↦ elim (Bool-cases (type == unfriend)) [
      | inl e ↦ at unfriend e (unfold handle in unfriend-Keeps db c payload)
      | inr h3 ↦
          Keeps-Lasts (handle-SamePeople db c type payload (differ h1) (differ h2) (differ h3))
    ]
  ]
]
  where
    at :
        (n : ℕ)
        → (type == n) ≡ true
        → Keeps lasting (handle db c n payload)
        → Keeps lasting (handle db c type payload)
    at n e k = subst (λ t. Keeps lasting (handle db c t payload)) (sym ((==_iff type n).0 e)) k

    differ : {n : ℕ} → (type == n) ≡ false → type ≢ n
    differ h e = ground arith
