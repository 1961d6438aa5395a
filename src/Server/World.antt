-- ===== src/Server/World.antt =====
-- What a handler reads and changes, and the monad in which the handlers are written.
use mobile_chatting_app.Common.{
  ℕ, Bool, true, false, List, [], ◌∷◌, ◌++◌, Option, none, some, Map, find_or,
}
use mobile_chatting_app.Common.Bytes.{Bytes, bytes_eq}
use mobile_chatting_app.Common.Decimal.{stoi}
use mobile_chatting_app.Server.Data.{ServerState}

-- A message handed to `network::send_message`.
pub record Packet : Type 0 where
  pub fd : ℕ
  pub type : ℕ
  pub payload : Bytes
  pub user_id : ℕ

-- `db` is `none` while `g_pg_persistence` is null; `users_file` is /tmp/chat_users.dat, and
-- `file_opens` says that it can be opened for writing; `sent` holds the messages sent so
-- far, and `activities` what was handed to the logger, the last one at the end.
pub record World (D : Type 0) : Type 0 where
  pub state : ServerState
  pub db : Option D
  pub users_file : Option Bytes
  pub file_opens : Bool
  pub sent : List Packet
  pub activities : List (Bytes × ℕ × Bytes)

-- `fault` is an exception that no handler catches or a call through the null pointer; either one
-- ends the server's process.
pub data Result (D : Type 0) (A : Type 0) : Type 0 where
  ok : A → World D → Result D A
  fault : Result D A

abbrev pub M : Type 0 → Type 0 → Type 0
M D A = World D → Result D A

unfoldable pub pure : {D A : Type 0} → A → M D A
pure a w = ok a w

infixl 5 ◌>>=◌ ◌>>◌
unfoldable pub ◌>>=◌ : {D A B : Type 0} → M D A → (A → M D B) → M D B
◌>>=◌ m f w = elim (m w) [ fault ↦ fault | ok a w' ↦ f a w' ]

unfoldable pub ◌>>◌ : {D B : Type 0} → M D (Unit {0}) → M D B → M D B
unfolding ◌>>=◌
m >> k = m >>= λ _. k

-- The server's globals.
unfoldable pub get : {D : Type 0} → M D ServerState
get w = ok w.state w

unfoldable pub modify : {D : Type 0} → (ServerState → ServerState) → M D (Unit {0})
modify f w = ok tt (record w { state = f w.state })

unfoldable pub exec : {D : Type 0} → (World D → World D) → M D (Unit {0})
exec f w = ok tt (f w)

-- `if (g_pg_persistence)`
unfoldable pub has_db : {D : Type 0} → M D Bool
has_db w = ok (elim w.db [ none ↦ false | some _ ↦ true ]) w

-- `g_pg_persistence->f(…)`
unfoldable pub call : {D A : Type 0} → (D → A × D) → M D A
call f w = elim w.db [ none ↦ fault | some d ↦ ok (f d).0 (record w { db = some (f d).1 }) ]

-- `network::send_message` with its result unused.
abbrev pub send : {D : Type 0} → ℕ → ℕ → Bytes → ℕ → World D → World D
send fd type payload user_id w = record w {
  sent = w.sent ++ (record { fd = fd; type = type; payload = payload; user_id = user_id } ∷ []);
}

unfoldable pub send_message : {D : Type 0} → ℕ → ℕ → Bytes → ℕ → M D (Unit {0})
unfolding exec
send_message fd type payload user_id = exec (send fd type payload user_id)

-- `logger::log_activity`, which writes the action, the user and the details to the log.
abbrev pub add_activity : {D : Type 0} → Bytes → ℕ → Bytes → World D → World D
add_activity action user_id details w = record w {
  activities = w.activities ++ ((action, user_id, details) ∷ []);
}

unfoldable pub log_activity : {D : Type 0} → Bytes → ℕ → Bytes → M D (Unit {0})
unfolding exec
log_activity action user_id details = exec (add_activity action user_id details)

-- `kv["key"]`
abbrev pub field : Bytes → Map Bytes Bytes → Bytes
field k kv = find_or [] k kv

-- `std::stoi(text)`
unfoldable pub to_int : {D : Type 0} → Bytes → M D ℕ
to_int s w = elim (stoi s) [ none ↦ fault | some n ↦ ok n w ]

-- The handler's `if` on an iterator: what it does without a value, and with one.
abbrev pub case_option : {D A B : Type 0} → Option A → M D B → (A → M D B) → M D B
case_option none x f = x
case_option (some a) x f = f a

-- A proof that computes with handlers unfolds this name, and with it the monad.
unfoldable pub monad : Unit {0}
unfolding pure ◌>>=◌ ◌>>◌ get modify exec has_db call send_message log_activity to_int
monad = tt

-- The connection whose request is handled, and the clocks when it is.
pub record Context : Type 0 where
  pub fd : ℕ
  pub current_user_id : ℕ
  pub requester_id : ℕ
  pub seconds : ℕ
  pub millis : ℕ
