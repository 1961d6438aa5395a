-- ===== src/Server/Start/File.antt =====
-- What `save_users` wrote, read by `load_users` (server-cpp/src/persistence.cpp).
use mobile_chatting_app.Common.{
  ℕ, ◌-◌, ◌^◌, ◌≤◌, ◌<◌, ◌≡◌, refl, sym, ap, ◌∙◌, subst, Bool, true, false, List, [], ◌∷◌, ◌++◌,
  append_assoc, Option, none, some, if◌then◌else◌, All, Map, lookup, lookup-insert, arith,
}
use mobile_chatting_app.Common.Bytes.{Bytes, Lacks, bytes_eq, bytes_beq, bytes_beq_iff}
use mobile_chatting_app.Common.Decimal.{
  to_string_int, stoi, stoi-to_string_int, to_string_int-Lacks,
}
use mobile_chatting_app.Codec.Kv.{get_lines}
use mobile_chatting_app.Codec.Pieces.{cut_at-append, cut_at-none, Lacks-append, get_lines-separator}
use mobile_chatting_app.Server.Data.{User, ServerState, minus_one}
use mobile_chatting_app.Server.World.{World}
use mobile_chatting_app.Server.Handlers.Names.{int_suc}
use mobile_chatting_app.Server.Handlers.Account.{user_lines, save_users}
use mobile_chatting_app.Server.Start.Users.{
  next_field, user_of_line, load_user, load_lines, higher, load_users,
}

-- The user as it comes back: without a connection.
abbrev pub loaded : User → User
loaded u = record u { socket_fd = minus_one; is_online = false; last_seen = 0 }

-- An entry that the file can hold: its key is the name, no field holds a tab or the end of a line,
-- and the id is an `int` that has a successor.
abbrev pub IsStorable : Bytes × User → Type 0
IsStorable (k, u) =
    (k ≡ u.username)
    × (u.id < 2 ^ 31 - 1)
    × (Lacks 9 u.username × Lacks 10 u.username)
    × (Lacks 9 u.password_hash × Lacks 10 u.password_hash)
    × (Lacks 9 u.phone × Lacks 10 u.phone)

-- No key occurs twice.
abbrev pub IsMap : Map Bytes User → Type 0
IsMap [] = Unit {0}
IsMap ((k, u) ∷ m) = (lookup k m ≡ none) × IsMap m

abbrev line : User → Bytes
line u = to_string_int u.id ++ (9 ∷ (u.username ++ (9 ∷ (u.password_hash ++ (9 ∷ u.phone)))))

abbrev lines_of : Map Bytes User → List Bytes
lines_of [] = []
lines_of ((k, u) ∷ m) = line u ∷ lines_of m

next_field-append : (f rest : Bytes) → Lacks 9 f → next_field (f ++ (9 ∷ rest)) ≡ (f, rest)
unfolding next_field
next_field-append f rest h = rw (next_field, cut_at-append 9 f rest h) refl

next_field-last : (f : Bytes) → Lacks 9 f → next_field f ≡ (f, [])
unfolding next_field
next_field-last f h = rw (next_field, cut_at-none 9 f h) refl

user_of_fields :
    (text r1 r2 r3 r4 id name password number : Bytes) (n : ℕ)
    → next_field text ≡ (id, r1)
    → next_field r1 ≡ (name, r2)
    → next_field r2 ≡ (password, r3)
    → next_field r3 ≡ (number, r4)
    → stoi id ≡ some n
    → user_of_line text
      ≡ some (record {
        id = n;
        username = name;
        password_hash = password;
        phone = number;
        socket_fd = minus_one;
        is_online = false;
        last_seen = 0;
      })
unfolding user_of_line
user_of_fields text r1 r2 r3 r4 id name password number n a b c d e =
    rw (user_of_line, a, e, a, b, c, d) refl

user_of_line-line :
    (k : Bytes) (u : User) → IsStorable (k, u) → user_of_line (line u) ≡ some (loaded u)
user_of_line-line k u (_, id, name, password, phone) =
    user_of_fields (line u) _ _ _ [] (to_string_int u.id) u.username u.password_hash u.phone u.id
      (next_field-append (to_string_int u.id) _ (to_string_int-Lacks 9 u.id (omega arith)))
      (next_field-append u.username _ name.0) (next_field-append u.password_hash u.phone password.0)
      (next_field-last u.phone phone.0) (stoi-to_string_int u.id (omega arith))

line-Lacks : (k : Bytes) (u : User) → IsStorable (k, u) → Lacks 10 (line u)
line-Lacks k u (_, id, name, password, phone) =
    Lacks-append 10 (to_string_int u.id) _ (to_string_int-Lacks 10 u.id (omega arith)) (
      omega arith,
      Lacks-append 10 u.username _ name.1
          (omega arith, Lacks-append 10 u.password_hash _ password.1 (omega arith, phone.1)),
    )

-- A line of the file and the end of the line, as `save_users` writes them.
user_lines-cons :
    (k : Bytes) (u : User) (m : Map Bytes User)
    → user_lines ((k, u) ∷ m) ≡ line u ++ (10 ∷ user_lines m)
unfolding user_lines
user_lines-cons k u m = simp append_assoc refl

get_lines-user_lines :
    (m : Map Bytes User) → All IsStorable m → get_lines 10 (user_lines m) ≡ lines_of m
unfolding user_lines get_lines
get_lines-user_lines [] h = refl
get_lines-user_lines ((k, u) ∷ m) (h, hs) =
    ap (get_lines 10) (user_lines-cons k u m)
    ∙ get_lines-separator 10 (line u) (user_lines m) (line-Lacks k u h)
    ∙ ap (λ ls. line u ∷ ls) (get_lines-user_lines m hs)

abbrev load_all : Map Bytes User → ServerState → ServerState
load_all [] s = s
load_all ((k, u) ∷ m) s = load_all m (load_user (loaded u) s)

abbrev highest : Map Bytes User → ℕ → ℕ
highest [] n = n
highest ((k, u) ∷ m) n = highest m (higher u.id n)

load_lines-lines_of :
    (m : Map Bytes User) (s : ServerState) (n : ℕ)
    → All IsStorable m
    → load_lines (lines_of m) s n ≡ some (load_all m s, int_suc (highest m n))
unfolding load_lines
load_lines-lines_of [] s n h = refl
load_lines-lines_of ((k, u) ∷ m) s n (h, hs) =
    rw (load_lines, user_of_line-line k u h)
      (load_lines-lines_of m (load_user (loaded u) s) (higher u.id n) hs)

-- What is found under a name after the file was read.
abbrev pub or_loaded : Option User → Option User → Option User
or_loaded none before = before
or_loaded (some u) before = some (loaded u)

first_or_later :
    (b : Bool) (u : User) (later before : Option User)
    → (b ≡ true → later ≡ none)
    → or_loaded later (if b then some (loaded u) else before)
      ≡ or_loaded (if b then some u else later) before
first_or_later true u later before h = rw (h refl) refl
first_or_later false u later before h = refl

lookup-load_all :
    (m : Map Bytes User) (s : ServerState) (k : Bytes)
    → All IsStorable m
    → IsMap m
    → lookup k (load_all m s).users_by_name ≡ or_loaded (lookup k m) (lookup k s.users_by_name)
unfolding lookup load_user
lookup-load_all [] s k h d = refl
lookup-load_all ((j, u) ∷ m) s k (h, hs) (d, ds) =
    lookup-load_all m (load_user (loaded u) s) k hs ds
    ∙ ap (or_loaded (lookup k m)) (
        lookup-insert u.username k (loaded u) s.users_by_name
        ∙ ap (λ name. if bytes_beq name k then some (loaded u) else lookup k s.users_by_name)
            (sym h.0))
    ∙ first_or_later (bytes_beq j k) u (lookup k m) (lookup k s.users_by_name)
        (λ e. subst (λ i. lookup i m ≡ none) ((bytes_beq_iff j k).0 e) d)

higher-above :
    (id n : ℕ)
    → id < 2 ^ 31 - 1
    → n < 2 ^ 31 - 1
    → (higher id n < 2 ^ 31 - 1) × (id ≤ higher id n) × (n ≤ higher id n)
higher-above id n h b = ground arith

highest-above :
    (m : Map Bytes User) (n : ℕ)
    → All IsStorable m
    → n < 2 ^ 31 - 1
    → (highest m n < 2 ^ 31 - 1) × (n ≤ highest m n) × All (λ (k, u). u.id ≤ highest m n) m
highest-above [] n h b = (b, omega arith, tt)
highest-above ((k, u) ∷ m) n (h, hs) b =
    let (small, above, before) = higher-above u.id n h.1 b in
    let (below, up, rest) = highest-above m (higher u.id n) hs small in
    (below, omega (arith, up, before), (omega (arith, up, above), rest))

All-map :
    {A : Type 0} {P Q : A → Type 0} (xs : List A) → ((a : A) → P a → Q a) → All P xs → All Q xs
All-map [] f h = tt
All-map (x ∷ xs) f (h, hs) = (f x h, All-map xs f hs)

-- The file that `save_users` writes, where it can be opened, is always read back, where it can hold
-- the users and their names are distinct, into a table without names: each account is found under its
-- name, without a connection, no other account is there, and the next id is above each id.
pub load_users-save_users :
    {D : Type 0} (m : Map Bytes User) (w : World D) (s : ServerState) (n : ℕ)
    → w.file_opens ≡ true
    → All IsStorable m
    → IsMap m
    → s.users_by_name ≡ []
    → (t : ServerState) × (next : ℕ) × (load_users (save_users m w).users_file s n ≡ some (t, next))
      × ((k : Bytes) → lookup k t.users_by_name ≡ or_loaded (lookup k m) none)
      × All (λ (k, u). u.id < next) m
unfolding load_users save_users lookup
load_users-save_users m w s n o h d e =
    let (small, _, above) = highest-above m 0 h (omega arith) in
    (
      load_all m s,
      int_suc (highest m 0),
      rw (load_users, o, get_lines-user_lines m h) (load_lines-lines_of m s 0 h),
      λ k. lookup-load_all m s k h d ∙ ap (λ l. or_loaded (lookup k m) (lookup k l)) e,
      All-map m (λ (k, u) b. omega (arith, b, small)) above,
    )
