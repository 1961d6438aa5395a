-- ===== src/Server/Postgres.antt =====
-- server-cpp/src/persistence_pg.cpp: `PostgresConnection`, and what the methods of
-- `PostgresPersistence` are made of. The library libpq is the parameter `Libpq`.
pub mod Users
pub mod Friends
pub mod Messages
pub mod Groups
pub mod Invites
pub mod Offline
pub mod Yields
pub mod Transactions
pub mod Total
pub mod Columns
pub mod Store
use mobile_chatting_app.Common.{
  ℕ, zero, suc, ◌+◌, ◌^◌, Bool, true, false, ◌&&◌, not, List, [], ◌∷◌, ◌++◌, Option, none, some,
  if◌then◌else◌, ◌==◌,
}
use mobile_chatting_app.Common.Bytes.{Bytes, c_str, codes, bytes_beq}
use mobile_chatting_app.Common.Decimal.{stoi, stoll, to_string_int}
use mobile_chatting_app.Server.Handlers.Names.{int_leb}

-- The functions of libpq on a state `C`, which holds the connection and the database behind it, and
-- on results `R`. A `none` of `getvalue` is the null pointer, for a row or a column that is not there.
pub record Libpq (C R : Type 0) : Type 0 where
  pub connectdb : Bytes → C → C
  pub status_ok : C → Bool
  pub finish : C → C
  pub exec : Bytes → C → R × C
  pub exec_params : Bytes → List (Option Bytes) → C → R × C
  pub succeeded : R → Bool
  pub ntuples : R → ℕ
  pub getvalue : R → ℕ → ℕ → Option Bytes
  pub getisnull : R → ℕ → ℕ → Bool
  pub escape : Bytes → C → Bytes
  -- The value of a member that no constructor sets.
  pub indeterminate : ℕ

-- `PostgresConnection`: `is_open` says that `conn` is not null. `executed` holds the statements that
-- were handed to libpq, with their success, the last one at the end; no code reads it.
pub record Pg (C : Type 0) : Type 0 where
  pub is_open : Bool
  pub lib : C
  pub connection_string : Bytes
  pub executed : List (Bytes × Bool)

-- A method; `none` is an exception of `std::stoi`, or the use of a null pointer as a text.
abbrev pub Sql : Type 0 → Type 0 → Type 0
Sql C A = Pg C → Option (A × Pg C)

-- The bits of SQL that the queries are concatenated from.
infixr 4 ◌<>◌
abbrev pub ◌<>◌ : Bytes → Bytes → Bytes
s <> t = s ++ t

module _ {C : Type 0} where
  unfoldable pub pure : {A : Type 0} → A → Sql C A
  pure a s = some (a, s)

  infixl 5 ◌>>=◌ ◌>>◌
  unfoldable pub ◌>>=◌ : {A B : Type 0} → Sql C A → (A → Sql C B) → Sql C B
  (m >>= f) s = elim (m s) [ none ↦ none | some (a, s') ↦ f a s' ]

  unfoldable pub ◌>>◌ : {A B : Type 0} → Sql C A → Sql C B → Sql C B
  unfolding ◌>>=◌
  m >> k = m >>= λ _. k

  unfoldable pub throw : {A : Type 0} → Sql C A
  throw s = none

  -- A value that a conversion may not yield.
  abbrev pub need : {A : Type 0} → Option A → Sql C A
  need none = throw
  need (some a) = pure a

-- The statement of `log_activity`; a target that is not positive is left out.
unfoldable pub log_query : Bytes → ℕ → ℕ → Bytes → Bytes
log_query log_type user_id target_user_id details =
    codes
      "INSERT INTO activity_logs (log_type, user_id, target_user_id, details, timestamp) VALUES ('"
    <> log_type
    <> codes "', "
    <> to_string_int user_id
    <> codes ", "
    <> (if int_leb target_user_id 0 then codes "NULL" else to_string_int target_user_id)
    <> codes ", '"
    <> details
    <> codes "', (EXTRACT(EPOCH FROM NOW()) * 1000)::BIGINT)"

-- What is done where `execute` gives the null pointer, and with a result.
abbrev pub case_result : {C R A : Type 0} → Option R → Sql C A → (R → Sql C A) → Sql C A
case_result none x f = x
case_result (some r) x f = f r

module _ {C R : Type 0} (pq : Libpq C R) where
  unfoldable pub is_connected : Pg C → Bool
  is_connected s = s.is_open && pq.status_ok s.lib

  unfoldable pub disconnect : Sql C (Unit {0})
  disconnect s =
      some (tt, if s.is_open then record s { is_open = false; lib = pq.finish s.lib } else s)

  -- The new connection replaces one that is open.
  unfoldable pub connect : Sql C Bool
  connect s =
      let c : C = pq.connectdb s.connection_string (if s.is_open then pq.finish s.lib else s.lib) in
      some (
        if pq.status_ok c
        then (true, record s { is_open = true; lib = c })
        else (false, record s { is_open = false; lib = pq.finish c }))

  -- `none` is the null pointer.
  unfoldable pub execute : Bytes → Sql C (Option R)
  execute query s =
      let (r, c) = pq.exec (c_str query) s.lib in
      some (
        if is_connected s
        then (
          if pq.succeeded r then some r else none,
          record s { lib = c; executed = s.executed ++ ((c_str query, pq.succeeded r) ∷ []) },
        )
        else (none, s))

  unfoldable pub execute_params : Bytes → List (Option Bytes) → Sql C (Option R)
  execute_params query values s =
      let (r, c) = pq.exec_params (c_str query) values s.lib in
      some (
        if is_connected s
        then (
          if pq.succeeded r then some r else none,
          record s { lib = c; executed = s.executed ++ ((c_str query, pq.succeeded r) ∷ []) },
        )
        else (none, s))

  unfoldable pub escape_string : Bytes → Sql C Bytes
  escape_string str s = some (c_str (pq.escape (c_str str) s.lib), s)

  -- `PQgetvalue(res, i, j)` as a text, and what is read from it.
  unfoldable pub text_at : R → ℕ → ℕ → Sql C Bytes
  text_at r i j = need (pq.getvalue r i j)

  unfoldable pub int_at : R → ℕ → ℕ → Sql C ℕ
  int_at r i j = do t ← text_at r i j; need (stoi t)

  unfoldable pub long_at : R → ℕ → ℕ → Sql C ℕ
  long_at r i j = do t ← text_at r i j; need (stoll t)

  unfoldable pub bool_at : R → ℕ → ℕ → Sql C Bool
  bool_at r i j = do t ← text_at r i j; pure (bytes_beq t (codes "t"))

  -- The loop over the rows `i` to `i + n - 1`.
  unfoldable pub each_row : {A : Type 0} → (ℕ → Sql C A) → ℕ → ℕ → Sql C (List A)
  each_row row zero i = pure []
  each_row row (suc n) i = do a ← row i; rest ← each_row row n (i + 1); pure (a ∷ rest)

  -- A query whose rows are read one by one; none where it fails.
  unfoldable pub select : {A : Type 0} → Bytes → (R → ℕ → Sql C A) → Sql C (List A)
  select query row = do
    res ← execute query
    case_result res (pure []) (λ r. each_row (row r) (pq.ntuples r) 0)

  -- A statement whose success is the result.
  unfoldable pub command : Bytes → Sql C Bool
  command query = do res ← execute query; case_result res (pure false) (λ r. pure true)

  -- A query of which only the number of rows is read.
  unfoldable pub exists_row : Bytes → Sql C Bool
  exists_row query = do
    res ← execute query
    case_result res (pure false) (λ r. pure (not (pq.ntuples r == 0)))

  unfoldable pub log_activity : Bytes → ℕ → ℕ → Bytes → Sql C Bool
  log_activity log_type user_id target_user_id details = do
    escaped_type ← escape_string log_type
    escaped_details ← escape_string details
    command (log_query escaped_type user_id target_user_id escaped_details)

  -- `command`, and an entry of the log where it succeeds.
  unfoldable pub logged : Bytes → Bytes → ℕ → ℕ → Bytes → Sql C Bool
  logged query log_type user_id target_user_id details = do
    done ← command query
    if done
        then (do _ ← log_activity log_type user_id target_user_id details; pure true)
        else pure false

  -- `db->execute("ROLLBACK"); return …;`
  unfoldable pub roll_back : {A : Type 0} → A → Sql C A
  roll_back result = do _ ← execute (codes "ROLLBACK"); pure result

  -- A step of a transaction, which its failure ends with `result`.
  unfoldable pub step : {A : Type 0} → Sql C Bool → A → Sql C A → Sql C A
  step m result next = do done ← m; if done then next else roll_back result

  -- The end of a transaction, with an entry of the log.
  unfoldable pub commit : {A : Type 0} → A → A → Sql C Bool → Sql C A
  commit good bad note = step (command (codes "COMMIT")) bad (do _ ← note; pure good)
