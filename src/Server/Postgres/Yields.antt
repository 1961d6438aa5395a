-- ===== src/Server/Postgres/Yields.antt =====
-- What a method of server-cpp/src/persistence_pg.cpp results in, with the state that it leaves.
use mobile_chatting_app.Common.{◌≡◌, refl, Bool, true, false, Option, none, some, if◌then◌else◌}
use mobile_chatting_app.Server.Postgres.{Pg, Sql, ◌>>=◌}

-- The method does not throw, and `P` holds of its result and of the state it leaves.
abbrev pub Yields : {C A : Type 0} → Option (A × Pg C) → (A → Pg C → Type 0) → Type 0
Yields none P = ⊥
Yields (some (a, s)) P = P a s

pub Yields-bind :
    {C A B : Type 0} {P : A → Pg C → Type 0} (Q : B → Pg C → Type 0) (m : Sql C A) (f : A → Sql C B)
    (s : Pg C)
    → Yields (m s) P
    → ((a : A) (t : Pg C) → P a t → Yields (f a t) Q)
    → Yields ((m >>= f) s) Q
unfolding ◌>>=◌
Yields-bind {C = C} {A = A} {P = P} Q m f s k h = go (m s) k
  where
    go :
        (r : Option (A × Pg C))
        → Yields r P
        → Yields (elim r [ none ↦ none | some (a, t) ↦ f a t ]) Q
    go none k = k
    go (some (a, t)) k = h a t k

pub Yields-if :
    {C A : Type 0} (Q : A → Pg C → Type 0) (b : Bool) (x y : Sql C A) (s : Pg C)
    → (b ≡ true → Yields (x s) Q)
    → (b ≡ false → Yields (y s) Q)
    → Yields ((if b then x else y) s) Q
Yields-if Q true x y s h k = h refl
Yields-if Q false x y s h k = k refl

pub Yields-map :
    {C A : Type 0} {P Q : A → Pg C → Type 0} (r : Option (A × Pg C))
    → ((a : A) (s : Pg C) → P a s → Q a s)
    → Yields r P
    → Yields r Q
Yields-map none f k = k
Yields-map (some (a, s)) f k = f a s k
