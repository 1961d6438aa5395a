-- ===== src/Tests/Start.antt =====
-- The file of users, written and read.
use mobile_chatting_app.Common.{
  ℕ, false, ◌++◌, ◌-◌, ◌^◌, ◌≡◌, ◌≢◌, ◌<◌, ◌≤◌, Bool, true, ◌&&◌, ltb, refl, [], ◌∷◌, All, Map,
  lookup, some, none, arith,
}
use mobile_chatting_app.Common.Bytes.{Bytes, Lacks, codes, bytes_eq}
use mobile_chatting_app.Server.Data.{User, ServerState, minus_one}
use mobile_chatting_app.Server.Handlers.Account.{save_users}
use mobile_chatting_app.Common.Decimal.{stoi}
use mobile_chatting_app.Server.Handlers.Account.{cleanup}
use mobile_chatting_app.Server.World.{World}
use mobile_chatting_app.Server.Friendship.{IsMutual}
use mobile_chatting_app.Server.Interleaving.{hangup, Reaches, here, after}
use mobile_chatting_app.Server.Postgres.{Libpq, Pg, pure, ◌>>=◌, ◌>>◌, connect}
use mobile_chatting_app.Server.Start.{no_globals, at_least_one, connect_loop, start}
use mobile_chatting_app.Server.Start.Users.{load_users, load_user, user_of_line}
use mobile_chatting_app.Server.Start.Friends.{start-IsMutual}
use mobile_chatting_app.Server.Start.File.{IsStorable, IsMap, or_loaded, load_users-save_users}
use mobile_chatting_app.Tests.Data.{ann, bob, in_memory, counter}

abbrev accounts : Map Bytes User
accounts = (codes "ann", ann) ∷ (codes "bob", bob) ∷ []

abbrev is_printable : Bytes → Bool
is_printable [] = true
is_printable (c ∷ s) = ltb 31 c && is_printable s

head_above : (c d : ℕ) (r : Bool) → d ≤ 31 → (ltb 31 c && r) ≡ true → c ≢ d
head_above c d r b h = ground arith

tail_printable : (c : ℕ) (r : Bool) → (ltb 31 c && r) ≡ true → r ≡ true
tail_printable c r h = ground arith

printable-Lacks : (d : ℕ) (s : Bytes) → d ≤ 31 → is_printable s ≡ true → Lacks d s
printable-Lacks d [] b h = tt
printable-Lacks d (c ∷ s) b h = (
  head_above c d (is_printable s) b h,
  printable-Lacks d s b (tail_printable c (is_printable s) h),
)

no_separators : (s : Bytes) → is_printable s ≡ true → Lacks 9 s × Lacks 10 s
no_separators s h = (printable-Lacks 9 s (omega arith) h, printable-Lacks 10 s (omega arith) h)

user-IsStorable :
    (u : User)
    → u.id < 2 ^ 31 - 1
    → is_printable u.username ≡ true
    → is_printable u.password_hash ≡ true
    → is_printable u.phone ≡ true
    → IsStorable (u.username, u)
user-IsStorable u h a b c =
    (refl, h, no_separators u.username a, no_separators u.password_hash b, no_separators u.phone c)

accounts-IsStorable : All IsStorable accounts
accounts-IsStorable = (
  user-IsStorable ann (omega arith) refl refl refl,
  (user-IsStorable bob (omega arith) refl refl refl, tt),
)

accounts-IsMap : IsMap accounts
unfolding lookup
accounts-IsMap = (refl, (refl, tt))

load_users-save_users_example :
    (t : ServerState) × (next : ℕ) × (load_users
        (save_users accounts in_memory).users_file
        no_globals
        1
      ≡ some (t, next))
    × ((k : Bytes) → lookup k t.users_by_name ≡ or_loaded (lookup k accounts) none)
    × All (λ (k, u). u.id < next) accounts
load_users-save_users_example =
    load_users-save_users accounts in_memory no_globals 1 refl accounts-IsStorable accounts-IsMap
      refl

-- A PostgreSQL that cannot be reached.
abbrev unreachable : Libpq ℕ Bytes
unreachable = record {
  connectdb = λ info n. n;
  status_ok = λ n. false;
  finish = λ n. n;
  exec = λ query n. ([], n);
  exec_params = λ query values n. ([], n);
  succeeded = λ r. false;
  ntuples = λ r. 0;
  getvalue = λ r i j. none;
  getisnull = λ r i j. true;
  escape = λ s n. s;
  indeterminate = 0;
}

abbrev users_file : Bytes
users_file = codes "1" ++ (9 ∷ (codes "ann" ++ (9 ∷ (codes "a" ++ (9 ∷ (codes "5" ++ (10 ∷ [])))))))

abbrev no_connection : Pg ℕ
no_connection = record { is_open = false; lib = 0; connection_string = []; executed = [] }

abbrev file_ann : User
file_ann = record {
  id = 1;
  username = codes "ann";
  password_hash = codes "a";
  phone = codes "5";
  socket_fd = minus_one;
  is_online = false;
  last_seen = 0;
}

abbrev started : ServerState
started = record (load_user file_ann no_globals) { next_user_id = 2 }

started_there :
    start unreachable (some (codes "1")) none (some users_file) file_ann no_connection
    ≡ some ((started, false), no_connection)
unfolding start at_least_one stoi connect_loop load_users user_of_line load_user pure ◌>>=◌ ◌>>◌
    connect
started_there = refl

abbrev first_world : World ℕ
first_world = record in_memory { state = started }

-- The session of a connection that never logged in ends, and that of the user 1.
two_hangups : Reaches counter first_world (cleanup 1 (cleanup 0 first_world))
two_hangups =
    after (cleanup 0 first_world) (cleanup 1 (cleanup 0 first_world))
      (after first_world (cleanup 0 first_world) here (hangup 0 first_world))
      (hangup 1 (cleanup 0 first_world))

start-IsMutual_example : IsMutual (cleanup 1 (cleanup 0 first_world)).state
start-IsMutual_example =
    start-IsMutual unreachable counter (some (codes "1")) none (some users_file) file_ann
      no_connection no_connection started first_world (cleanup 1 (cleanup 0 first_world))
      started_there refl two_hangups
