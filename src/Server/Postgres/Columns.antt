-- ===== src/Server/Postgres/Columns.antt =====
-- The columns that the queries of server-cpp/src/persistence_pg.cpp read: their types, by
-- database/migrations/001_create_schema.sql, and the rows that are read with them.
pub mod Readers
use mobile_chatting_app.Common.{
  ℕ, zero, suc, ◌+◌, ◌≡◌, ◌≢◌, ◌<◌, ◌≤◌, refl, Bool, true, false, List, [], ◌∷◌, ◌++◌, Option, none,
  some, if◌then◌else◌, Bool-cases, inl, inr, ◌&&◌, arith,
}
use mobile_chatting_app.Common.Bytes.{Bytes, c_str}
use mobile_chatting_app.Common.Decimal.{stoi, stoll}
use mobile_chatting_app.Server.Postgres.{
  Libpq, Pg, Sql, case_result, pure, throw, need, ◌>>=◌, ◌>>◌, is_connected, execute, text_at,
  int_at, long_at, bool_at, each_row, select,
}
use mobile_chatting_app.Server.Postgres.Total.{Never, Never-pure, Never-bind, sql}

-- An INTEGER, a BIGINT, a BIGINT that may be NULL, and any column of which only the text is read.
pub data Column : Type 0 where
  integer : Column
  bigint : Column
  bigint_or_null : Column
  text : Column

-- A text that a conversion takes.
abbrev IsRead : (Bytes → Option ℕ) → Option Bytes → Type 0
IsRead conversion none = ⊥
IsRead conversion (some t) = conversion t ≢ none

module _ {C R : Type 0} (pq : Libpq C R) where
  abbrev pub Cell : R → ℕ → ℕ → Column → Type 0
  Cell r i j integer = IsRead stoi (pq.getvalue r i j)
  Cell r i j bigint = IsRead stoll (pq.getvalue r i j)
  Cell r i j bigint_or_null = pq.getisnull r i j ≡ false → IsRead stoll (pq.getvalue r i j)
  Cell r i j text = pq.getvalue r i j ≢ none

  -- The columns of row `i` from `j` on.
  abbrev pub Cells : R → ℕ → ℕ → List Column → Type 0
  Cells r i j [] = Unit {0}
  Cells r i j (k ∷ ks) = Cell r i j k × Cells r i (j + 1) ks

  -- Each row of a query has the columns, whatever the state, if the query succeeds.
  abbrev pub HasColumns : Bytes → List Column → Type 0
  HasColumns query columns =
      (c : C) (i : ℕ)
      → pq.succeeded (pq.exec (c_str query) c).0 ≡ true
      → i < pq.ntuples (pq.exec (c_str query) c).0
      → Cells (pq.exec (c_str query) c).0 i 0 columns

  need-Never : {A : Type 0} (o : Option A) → o ≢ none → Never {C = C} (need o)
  unfolding pure throw
  need-Never none h = absurd (h refl)
  need-Never (some a) h = record { never = λ s e. cc }

  pub text_at-Never : (r : R) (i j : ℕ) → Cell r i j text → Never (text_at pq r i j)
  unfolding text_at
  text_at-Never r i j h = need-Never (pq.getvalue r i j) h

  need_read :
      (conversion : Bytes → Option ℕ) (o : Option Bytes)
      → IsRead conversion o
      → Never {C = C} (need o >>= λ t. need (conversion t))
  unfolding pure throw ◌>>=◌
  need_read conversion none h = absurd h
  need_read conversion (some t) h = record { never = λ s. (need-Never (conversion t) h).never s }

  pub int_at-Never : (r : R) (i j : ℕ) → Cell r i j integer → Never (int_at pq r i j)
  unfolding int_at text_at
  int_at-Never r i j h = need_read stoi (pq.getvalue r i j) h

  pub long_at-Never : (r : R) (i j : ℕ) → Cell r i j bigint → Never (long_at pq r i j)
  unfolding long_at text_at
  long_at-Never r i j h = need_read stoll (pq.getvalue r i j) h

  pub null_or_long-Never :
      (r : R) (i j : ℕ)
      → Cell r i j bigint_or_null
      → Never (if pq.getisnull r i j then pure 0 else long_at pq r i j)
  null_or_long-Never r i j h = go (pq.getisnull r i j) (λ e. long_at-Never r i j (h e))
    where
      go :
          (b : Bool)
          → (b ≡ false → Never (long_at pq r i j))
          → Never (if b then pure 0 else long_at pq r i j)
      go true k = Never-pure 0
      go false k = k refl

  pub bool_at-Never : (r : R) (i j : ℕ) → Cell r i j text → Never (bool_at pq r i j)
  unfolding bool_at
  bool_at-Never r i j h = Never-bind (text_at-Never r i j h) (λ t. Never-pure _)

  each_row-Never :
      {A : Type 0} (row : ℕ → Sql C A) (n i : ℕ)
      → ((k : ℕ) → i ≤ k → k < i + n → Never (row k))
      → Never (each_row pq row n i)
  unfolding each_row
  each_row-Never row zero i h = Never-pure []
  each_row-Never row (suc n) i h = Never-bind (h i (omega arith) (omega arith)) (λ a.
      Never-bind (each_row-Never row n (i + 1) (λ k p q. h k (omega (arith, p)) (omega (arith, q))))
        (λ rest. Never-pure (a ∷ rest)))

  -- A query, and what is done with its result.
  pub execute-Never :
      {A : Type 0} (query : Bytes) (x : Sql C A) (f : R → Sql C A) (s : Pg C)
      → Never x
      → (pq.succeeded (pq.exec (c_str query) s.lib).0 ≡ true
          → Never (f (pq.exec (c_str query) s.lib).0))
      → (execute pq query >>= λ res. case_result res x f) s ≢ none
  unfolding execute ◌>>=◌
  execute-Never query x f s hx hf =
      go (is_connected pq s) (pq.succeeded (pq.exec (c_str query) s.lib).0) hf
    where
      go :
          (up done : Bool)
          → (done ≡ true → Never (f (pq.exec (c_str query) s.lib).0))
          → let q : Option R × Pg C =
              if up
              then (
                if done then some (pq.exec (c_str query) s.lib).0 else none,
                record s {
                  lib = (pq.exec (c_str query) s.lib).1;
                  executed = s.executed ++ ((c_str query, done) ∷ []);
                },
              )
              else (none, s) in
            case_result q.0 x f q.1 ≢ none
      go true true h = (h refl).never _
      go true false h = hx.never _
      go false done h = hx.never s

  -- The rows of a query can be read where each row with the columns can.
  pub select-Never :
      {A : Type 0} (query : Bytes) (columns : List Column) (row : R → ℕ → Sql C A)
      → HasColumns query columns
      → ((r : R) (i : ℕ) → Cells r i 0 columns → Never (row r i))
      → Never (select pq query row)
  unfolding select
  select-Never query columns row h k = record {
    never = λ s.
        execute-Never query (pure []) (λ r. each_row pq (row r) (pq.ntuples r) 0) s (Never-pure [])
          (λ e.
            each_row-Never (row (pq.exec (c_str query) s.lib).0)
              (pq.ntuples (pq.exec (c_str query) s.lib).0) 0
              (λ i _ b. k (pq.exec (c_str query) s.lib).0 i (h s.lib i e (omega (arith, b)))));
  }
