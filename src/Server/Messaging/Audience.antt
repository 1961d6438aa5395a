-- ===== src/Server/Messaging/Audience.antt =====
-- Who gets a group message without a database (server-cpp/src/message_handler.cpp).
use mobile_chatting_app.Common.{
  ℕ, ◌≡◌, refl, ◌∙◌, true, false, ◌&&◌, not, List, [], ◌∷◌, ◌==◌, Map, lookup, find_or, has, keys,
  nat_eq, contains, Option, none, some, Bool-cases, inl, inr, arith,
}
use mobile_chatting_app.Server.Data.{Group, ServerState}
use mobile_chatting_app.Server.Database.{Database}
use mobile_chatting_app.Server.World.{World, Context, monad}
use mobile_chatting_app.Server.Messaging.{Returns}
use mobile_chatting_app.Server.Handlers.Groups.{is_member, members_of, empty_group}
use mobile_chatting_app.Server.Handlers.Groups.Create.{all_but, recipients}

contains-keys : {V : Type 0} (j : ℕ) (m : Map ℕ V) → contains j (keys m) ≡ has j m
unfolding lookup
contains-keys j [] = refl
contains-keys j ((k, v) ∷ m) = ground (arith, contains-keys j m)

contains-all_but :
    (me j : ℕ) (xs : List ℕ) → contains j (all_but me xs) ≡ (not (j == me) && contains j xs)
unfolding all_but
contains-all_but me j [] = ground arith
contains-all_but me j (x ∷ xs) = ground (arith, contains-all_but me j xs)

-- The list is there exactly for a member, and holds exactly the other members.
abbrev pub IsAudience : ℕ → ℕ → ServerState → Option (List ℕ) → Type 0
IsAudience gid me s none = is_member gid me s ≡ false
IsAudience gid me s (some us) =
    (is_member gid me s ≡ true) × ((j : ℕ) → contains j us ≡ (not (j == me) && is_member gid j s))

contains-members_of :
    (gid j : ℕ) (s : ServerState) → contains j (members_of gid s) ≡ is_member gid j s
unfolding is_member
contains-members_of gid j s =
    contains-keys j (find_or empty_group gid s.groups).members ∙ go (lookup gid s.groups) refl
  where
    go :
        (o : Option Group)
        → lookup gid s.groups ≡ o
        → has j (find_or empty_group gid s.groups).members ≡ is_member gid j s
    go none e = rw (is_member, find_or, e) (unfold lookup in refl)
    go (some g) e = rw (is_member, find_or, e) refl

module _ {D : Type 0} (db : Database D) (c : Context) where
  -- Without a database `recipients` always returns and changes nothing at all: it finds no list exactly
  -- where the sender is no member of the group, else the list of exactly the other members.
  pub recipients-IsAudience :
      (gid : ℕ) (w : World D)
      → w.db ≡ none
      → Returns
          (recipients db c gid w)
          (λ found w'. (w' ≡ w) × IsAudience gid c.current_user_id w.state found)
  unfolding recipients monad
  recipients-IsAudience gid w z = elim (Bool-cases (is_member gid c.current_user_id w.state)) [
    | inl member ↦
        rw (Returns, z, member)
          (
            refl,
            (
              member,
              λ j.
                  contains-all_but c.current_user_id j (members_of gid w.state)
                  ∙ rw (contains-members_of gid j w.state) refl,
            ),
          )
    | inr outsider ↦ rw (Returns, z, outsider) (refl, outsider)
  ]
