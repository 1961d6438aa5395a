-- ===== src/Server/Postgres/Transactions.antt =====
-- The transactions of `accept_friend_request` and `create_group` (server-cpp/src/persistence_pg.cpp).
use mobile_chatting_app.Common.{
  ℕ, ◌≡◌, refl, sym, ap, ◌∙◌, subst, Bool, true, false, not, ◌&&◌, ◌⊎◌, List, [], ◌∷◌, ◌++◌,
  if◌then◌else◌, ◌==◌, Bool-cases, inl, inr, arith,
}
use mobile_chatting_app.Common.Bytes.{c_str, Bytes, codes, bytes_beq}
use mobile_chatting_app.Server.Postgres.{
  Libpq, Pg, Sql, pure, ◌>>=◌, is_connected, execute, escape_string, command, log_activity,
  log_query, logged, roll_back, step, commit,
}
use mobile_chatting_app.Server.Postgres.Yields.{Yields, Yields-bind, Yields-if, Yields-map}
use mobile_chatting_app.Server.Postgres.Friends.{add_friend, delete_request, accept_friend_request}

-- What the statements so far have made of the last transaction.
pub data Tx : Type 0 where
  idle : Tx
  open_tx : Tx
  committed : Tx
  rolled_back : Tx

-- A statement with its success; a COMMIT that fails leaves the transaction open.
abbrev pub tx_step : Tx → Bytes × Bool → Tx
tx_step t (q, done) =
    if not done
    then t
    else if bytes_beq q (codes "BEGIN")
    then open_tx
    else if bytes_beq q (codes "COMMIT")
    then committed
    else if bytes_beq q (codes "ROLLBACK")
    then rolled_back
    else t

abbrev pub tx_of : List (Bytes × Bool) → Tx → Tx
tx_of [] t = t
tx_of (q ∷ qs) t = tx_of qs (tx_step t q)

tx_of-append : (qs rs : List (Bytes × Bool)) (t : Tx) → tx_of (qs ++ rs) t ≡ tx_of rs (tx_of qs t)
tx_of-append [] rs t = refl
tx_of-append (q ∷ qs) rs t = tx_of-append qs rs (tx_step t q)

-- The transaction after the statements of a connection that began idle.
abbrev pub tx : {C : Type 0} → Pg C → Tx
tx s = tx_of s.executed idle

-- No statement that begins or ends a transaction.
abbrev IsQuiet : Bytes → Type 0
IsQuiet q = (t : Tx) (done : Bool) → tx_step t (q, done) ≡ t

-- The connection is open, and the transaction is as before.
abbrev Kept : {C A : Type 0} → Pg C → A → Pg C → Type 0
Kept s a t = (t.is_open ≡ true) × (tx t ≡ tx s)

-- The statement starts with none of the letters `B`, `C` and `R`.
abbrev is_calm : Bytes → Bool
is_calm [] = true
is_calm (c ∷ q) = not (c == b'B') && not (c == b'C') && not (c == b'R')

is_calm-IsQuiet : (q : Bytes) → is_calm q ≡ true → IsQuiet q
is_calm-IsQuiet [] h t false = refl
is_calm-IsQuiet [] h t true = refl
is_calm-IsQuiet (c ∷ q) h t false = refl
is_calm-IsQuiet (c ∷ q) h t true = ground (arith, h)

log_query-is_calm :
    (log_type : Bytes) (user target : ℕ) (details : Bytes)
    → is_calm (c_str (log_query log_type user target details)) ≡ true
unfolding log_query
log_query-is_calm log_type user target details = refl

delete_request-is_calm : (from to : ℕ) → is_calm (c_str (delete_request from to)) ≡ true
unfolding delete_request
delete_request-is_calm from to = refl

-- The transaction is over: committed with the result `good`, or rolled back with the result `bad`.
abbrev pub IsClosed : {C A : Type 0} → A → A → A → Pg C → Type 0
IsClosed good bad a t = ((a ≡ good) × (tx t ≡ committed)) ⊎ ((a ≡ bad) × (tx t ≡ rolled_back))

module _ {C R : Type 0} (pq : Libpq C R) (up : (c : C) → pq.status_ok c ≡ true) where
  -- A statement on an open connection.
  command-runs :
      (query : Bytes) (s : Pg C)
      → s.is_open ≡ true
      → Yields
          (command pq query s)
          (λ done t. (t.is_open ≡ true) × (tx t ≡ tx_step (tx s) (c_str query, done)))
  unfolding command execute is_connected pure ◌>>=◌
  command-runs query s h = elim (Bool-cases (pq.succeeded (pq.exec (c_str query) s.lib).0)) [
    | inl done ↦
        rw (Yields, command, execute, is_connected, h, up s.lib, done)
          (refl, tx_of-append s.executed ((c_str query, true) ∷ []) idle)
    | inr failed ↦
        rw (Yields, command, execute, is_connected, h, up s.lib, failed)
          (refl, tx_of-append s.executed ((c_str query, false) ∷ []) idle)
  ]

  quiet-runs :
      (query : Bytes) (s : Pg C)
      → s.is_open ≡ true
      → is_calm (c_str query) ≡ true
      → Yields (command pq query s) (Kept s)
  quiet-runs query s h quiet =
      Yields-map {Q = Kept s} (command pq query s)
        (λ done t k. (k.0, k.1 ∙ is_calm-IsQuiet (c_str query) quiet (tx s) done))
        (command-runs query s h)

  log_activity-runs :
      (log_type : Bytes) (user target : ℕ) (details : Bytes) (s : Pg C)
      → s.is_open ≡ true
      → Yields (log_activity pq log_type user target details s) (Kept s)
  unfolding log_activity escape_string ◌>>=◌
  log_activity-runs log_type user target details s h =
      quiet-runs
        (log_query (c_str (pq.escape (c_str log_type) s.lib)) user target
          (c_str (pq.escape (c_str details) s.lib)))
        s h
        (log_query-is_calm (c_str (pq.escape (c_str log_type) s.lib)) user target
          (c_str (pq.escape (c_str details) s.lib)))

  logged-runs :
      (query log_type : Bytes) (user target : ℕ) (details : Bytes) (s : Pg C)
      → s.is_open ≡ true
      → is_calm (c_str query) ≡ true
      → Yields (logged pq query log_type user target details s) (Kept s)
  unfolding logged pure
  logged-runs query log_type user target details s h quiet =
      Yields-bind (Kept s) (command pq query)
        (λ done.
          if done
          then (do _ ← log_activity pq log_type user target details; pure true)
          else pure false)
        s (quiet-runs query s h quiet)
        (λ done t k.
          Yields-if (Kept s) done (do _ ← log_activity pq log_type user target details; pure true)
            (pure false) t
            (λ _.
              Yields-bind (Kept s) (log_activity pq log_type user target details) (λ _. pure true) t
                (log_activity-runs log_type user target details t k.0) (λ a v l. (l.0, l.1 ∙ k.1)))
            (λ _. k))

  add_friend-runs : (a b : ℕ) (s : Pg C) → s.is_open ≡ true → Yields (add_friend pq a b s) (Kept s)
  unfolding add_friend
  add_friend-runs a b s h = logged-runs _ _ _ _ _ s h refl

  module _ (aborts : (c : C) → pq.succeeded (pq.exec (codes "ROLLBACK") c).0 ≡ true) where
    roll_back-runs :
        {A : Type 0} (result : A) (s : Pg C)
        → s.is_open ≡ true
        → Yields
            (roll_back pq result s)
            (λ a t. (a ≡ result) × (t.is_open ≡ true) × (tx t ≡ rolled_back))
    unfolding roll_back execute is_connected pure ◌>>=◌
    roll_back-runs result s h =
        rw (Yields, h, up s.lib, aborts s.lib)
          (refl, refl, tx_of-append s.executed ((codes "ROLLBACK", true) ∷ []) idle)

    -- A step that leaves the transaction as it is, and what follows it.
    step-runs :
        {A : Type 0} (Q : A → Pg C → Type 0) (m : Sql C Bool) (result : A) (next : Sql C A)
        (s : Pg C)
        → Yields (m s) (Kept s)
        → ((t : Pg C) → t.is_open ≡ true → Yields (next t) Q)
        → ((t : Pg C) → t.is_open ≡ true → tx t ≡ rolled_back → Q result t)
        → Yields (step pq m result next s) Q
    unfolding step
    step-runs Q m result next s k h fail =
        Yields-bind Q m (λ done. if done then next else roll_back pq result) s k
          (λ done t kept.
            Yields-if Q done next (roll_back pq result) t (λ _. h t kept.0)
              (λ _.
                Yields-map (roll_back pq result t)
                  (λ a v (e, opened, r). subst (λ b. Q b v) (sym e) (fail v opened r))
                  (roll_back-runs result t kept.0)))

    commit-runs :
        {A : Type 0} (good bad : A) (note : Sql C Bool) (s : Pg C)
        → s.is_open ≡ true
        → ((t : Pg C) → t.is_open ≡ true → Yields (note t) (Kept t))
        → Yields (commit pq good bad note s) (IsClosed good bad)
    unfolding commit step pure
    commit-runs good bad note s h noted =
        Yields-bind (IsClosed good bad) (command pq (codes "COMMIT"))
          (λ done. if done then (do _ ← note; pure good) else roll_back pq bad) s
          (command-runs (codes "COMMIT") s h)
          (λ done t (opened, e).
            Yields-if (IsClosed good bad) done (do _ ← note; pure good) (roll_back pq bad) t
              (λ done_it.
                Yields-bind (IsClosed good bad) note (λ _. pure good) t (noted t opened)
                  (λ a v kept.
                    inl (refl, kept.1 ∙ e ∙ ap (λ b. tx_step (tx s) (codes "COMMIT", b)) done_it)))
              (λ _.
                Yields-map (roll_back pq bad t) (λ a v (e', _, r). inr (e', r))
                  (roll_back-runs bad t opened)))

    -- On a connection that stays open, where ROLLBACK succeeds, `accept_friend_request` always
    -- returns and leaves no transaction open: it returns true with the transaction committed, or
    -- false with the transaction rolled back or never begun.
    pub accept_friend_request-IsClosed :
        (from to : ℕ) (s : Pg C)
        → s.is_open ≡ true
        → Yields
            (accept_friend_request pq from to s)
            (λ done t. IsClosed true false done t ⊎ ((done ≡ false) × (tx t ≡ tx s)))
    unfolding accept_friend_request pure
    accept_friend_request-IsClosed from to s h =
        let Q : Bool → Pg C → Type 0 =
          λ done t. IsClosed true false done t ⊎ ((done ≡ false) × (tx t ≡ tx s)) in
        let last =
          commit pq true false (log_activity pq (codes "FRIEND_REQUEST_ACCEPT") to from []) in
        let rest = step pq (command pq (delete_request from to)) false last in
        let work = step pq (add_friend pq from to) false rest in
        Yields-bind Q (command pq (codes "BEGIN")) (λ begun. if begun then work else pure false) s
          (command-runs (codes "BEGIN") s h)
          (λ begun t (opened, e).
            Yields-if Q begun work (pure false) t
              (λ _.
                step-runs Q (add_friend pq from to) false rest t (add_friend-runs from to t opened)
                  (λ u h1.
                    step-runs Q (command pq (delete_request from to)) false last u
                      (quiet-runs (delete_request from to) u h1 (delete_request-is_calm from to))
                      (λ v h2.
                        Yields-map (last v) (λ a x c. inl c)
                          (commit-runs true false
                            (log_activity pq (codes "FRIEND_REQUEST_ACCEPT") to from []) v h2
                            (log_activity-runs (codes "FRIEND_REQUEST_ACCEPT") to from [])))
                      (λ v _ r. inl (inr (refl, r))))
                  (λ u _ r. inl (inr (refl, r))))
              (λ failed. inr (refl, e ∙ ap (λ b. tx_step (tx s) (codes "BEGIN", b)) failed)))
