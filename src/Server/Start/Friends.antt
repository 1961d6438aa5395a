-- ===== src/Server/Start/Friends.antt =====
-- The server without a database, from server-cpp/src/main.cpp through its requests: nobody has a friend
-- after the file of users is read, and friendship is mutual from then on.
use mobile_chatting_app.Common.{
  ℕ, ◌≡◌, refl, sym, ◌∙◌, subst, Bool, true, false, List, [], ◌∷◌, Option, none, some,
  if◌then◌else◌, find_or, nat_eq, lookup, lookup-insert, arith,
}
use mobile_chatting_app.Common.Bytes.{Bytes}
use mobile_chatting_app.Server.Data.{User, ServerState}
use mobile_chatting_app.Server.Database.{Database}
use mobile_chatting_app.Server.World.{World}
use mobile_chatting_app.Server.Handlers.Names.{is_friend}
use mobile_chatting_app.Server.Friendship.{IsMutual}
use mobile_chatting_app.Server.Interleaving.{Reaches, Reaches-IsMutual}
use mobile_chatting_app.Server.Postgres.{Libpq, Pg, Sql, pure, ◌>>=◌, need, throw}
use mobile_chatting_app.Server.Start.{no_globals, at_least_one, connect_loop, load_database, start}
use mobile_chatting_app.Server.Start.Users.{user_of_line, load_user, load_lines, higher, load_users}

-- No table of friends has an entry.
abbrev IsFriendless : ServerState → Type 0
IsFriendless s = (a b : ℕ) → is_friend a b s ≡ false

load_user-IsFriendless :
    (u : User) (s : ServerState) → IsFriendless s → IsFriendless (load_user u s)
unfolding load_user is_friend
load_user-IsFriendless u s h a b =
    ground (arith, h a b, lookup-insert u.id a (find_or [] u.id s.friends) s.friends)

-- What a value holds, where there is one.
abbrev Holds : {A : Type 0} → (A → Type 0) → Option A → Type 0
Holds P none = Unit {0}
Holds P (some a) = P a

load_lines-IsFriendless :
    (lines : List Bytes) (s : ServerState) (n : ℕ)
    → IsFriendless s
    → Holds (λ (t, _). IsFriendless t) (load_lines lines s n)
unfolding load_lines
load_lines-IsFriendless [] s n h = h
load_lines-IsFriendless (line ∷ lines) s n h = go (user_of_line line) (λ u.
    load_lines-IsFriendless lines (load_user u s) (higher u.id n) (load_user-IsFriendless u s h))
  where
    go :
        (r : Option User)
        → ((u : User)
            → Holds (λ (t, _). IsFriendless t) (load_lines lines (load_user u s) (higher u.id n)))
        → Holds
            (λ (t, _). IsFriendless t)
            (elim r [ none ↦ none | some u ↦ load_lines lines (load_user u s) (higher u.id n) ])
    go none k = tt
    go (some u) k = k u

load_users-IsFriendless :
    (file : Option Bytes) → Holds (λ (t, _). IsFriendless t) (load_users file no_globals 1)
unfolding load_users is_friend lookup
load_users-IsFriendless none = λ a b. refl
load_users-IsFriendless (some text) = load_lines-IsFriendless _ no_globals 0 (λ a b. refl)

-- Where a method returns, its value has the property.
abbrev Ensures : {C A : Type 0} → (A → Type 0) → Sql C A → Type 0
Ensures {C = C} P m = (c : Pg C) → Holds (λ (a, _). P a) (m c)

Ensures-bind :
    {C A B : Type 0} (P : B → Type 0) (m : Sql C A) (f : A → Sql C B)
    → ((a : A) → Ensures P (f a))
    → Ensures P (m >>= f)
unfolding ◌>>=◌
Ensures-bind {C = C} {A = A} P m f h c = go (m c)
  where
    go :
        (r : Option (A × Pg C))
        → Holds (λ (b, _). P b) (elim r [ none ↦ none | some (a, t) ↦ f a t ])
    go none = tt
    go (some (a, t)) = h a t

Ensures-need :
    {C A B : Type 0} (P : B → Type 0) (o : Option A) (f : A → Sql C B)
    → Holds (λ a. Ensures P (f a)) o
    → Ensures P (need o >>= f)
unfolding ◌>>=◌ pure throw
Ensures-need P none f h c = tt
Ensures-need P (some a) f h c = h c

Ensures-if :
    {C A : Type 0} (P : A → Type 0) (b : Bool) (x y : Sql C A)
    → Ensures P x
    → Ensures P y
    → Ensures P (if b then x else y)
Ensures-if P true x y h k = h
Ensures-if P false x y h k = k

-- Without a database, nobody has a friend.
abbrev StartsEmpty : ServerState × Bool → Type 0
StartsEmpty (s, has_database) = has_database ≡ false → IsFriendless s

module _ {C R : Type 0} (pq : Libpq C R) where
  from_file :
      (file : Option Bytes)
      → Ensures {C = C} StartsEmpty (
          need (load_users file no_globals 1) >>= λ (s, next_id).
          pure (record s { next_user_id = next_id }, false))
  unfolding pure is_friend
  from_file file =
      Ensures-need StartsEmpty (load_users file no_globals 1) _
        (go (load_users file no_globals 1) (load_users-IsFriendless file))
    where
      go :
          (r : Option (ServerState × ℕ))
          → Holds (λ (t, _). IsFriendless t) r
          → Holds
              (λ (s, next_id).
                Ensures {C = C} StartsEmpty (pure (record s { next_user_id = next_id }, false)))
              r
      go none h = tt
      go (some (s, n)) h = λ c e. h

  start-StartsEmpty :
      (retries delay file : Option Bytes) (blank : User)
      → Ensures StartsEmpty (start pq retries delay file blank)
  unfolding start pure
  start-StartsEmpty retries delay file blank =
      Ensures-bind StartsEmpty (need (at_least_one 10 retries)) _ (λ n.
        Ensures-bind StartsEmpty (need (at_least_one 2 delay)) _ (λ _.
          Ensures-bind StartsEmpty (connect_loop pq n) _ (λ connected.
            Ensures-if StartsEmpty connected _ _
              (Ensures-bind StartsEmpty (load_database pq blank no_globals) _
                (λ s. with_database s))
              (from_file file))))
    where
      with_database : (s : ServerState) → Ensures {C = C} StartsEmpty (pure (s, true))
      with_database s c e = absurd (ground (arith, e))

  -- Where the server starts without a database, from whatever file, friendship is mutual after any
  -- sequence of requests and ends of sessions, of any connections.
  pub start-IsMutual :
      {D : Type 0} (db : Database D) (retries delay file : Option Bytes) (blank : User)
      (c c' : Pg C) (s : ServerState) (w v : World D)
      → start pq retries delay file blank c ≡ some ((s, false), c')
      → w.state ≡ s
      → Reaches db w v
      → IsMutual v.state
  start-IsMutual db retries delay file blank c c' s w v e f r =
      let empty : IsFriendless s =
        subst (Holds (λ (a, _). StartsEmpty a)) e (start-StartsEmpty retries delay file blank c)
          refl in
      Reaches-IsMutual db w v r (subst IsMutual (sym f) (λ a b. empty a b ∙ sym (empty b a)))
