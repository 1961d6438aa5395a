-- ===== src/Server/Start/Users.antt =====
-- server-cpp/src/persistence.cpp: `load_users`.
use mobile_chatting_app.Common.{
  ℕ, false, List, [], ◌∷◌, Option, none, some, if◌then◌else◌, nat_eq, insert, touch,
}
use mobile_chatting_app.Common.Bytes.{Bytes, bytes_eq}
use mobile_chatting_app.Common.Decimal.{stoi}
use mobile_chatting_app.Codec.Kv.{get_lines, cut_at}
use mobile_chatting_app.Server.Data.{User, ServerState, minus_one}
use mobile_chatting_app.Server.Handlers.Names.{int_leb, int_suc}

-- `std::getline(iss, text, '\t')`: the next field and what is left; at the end the field is empty.
unfoldable pub next_field : Bytes → Bytes × Bytes
unfolding cut_at
next_field line = elim (cut_at 9 line) [ none ↦ (line, []) | some (f, rest) ↦ (f, rest) ]

-- A line of the file; `none` is the exception of `std::stoi`.
unfoldable pub user_of_line : Bytes → Option User
unfolding next_field
user_of_line line =
    let (id, line1) = next_field line in
    let (name, line2) = next_field line1 in
    let (password, line3) = next_field line2 in
    let (number, line4) = next_field line3 in
    elim (stoi id) [
      | none ↦ none
      | some n ↦ some (record {
        id = n;
        username = name;
        password_hash = password;
        phone = number;
        socket_fd = minus_one;
        is_online = false;
        last_seen = 0;
      })
    ]

-- A user who was read enters the tables.
unfoldable pub load_user : User → ServerState → ServerState
load_user u s = record s {
  users_by_name = insert u.username u s.users_by_name;
  users_by_id = insert u.id u s.users_by_id;
  friends = touch [] u.id s.friends;
  friend_requests = touch [] u.id s.friend_requests;
}

abbrev pub higher : ℕ → ℕ → ℕ
higher id max_id = if int_leb id max_id then max_id else id

unfoldable pub load_lines : List Bytes → ServerState → ℕ → Option (ServerState × ℕ)
unfolding user_of_line load_user
load_lines [] s max_id = some (s, int_suc max_id)
load_lines (line ∷ lines) s max_id = elim (user_of_line line) [
  | none ↦ none
  | some u ↦ load_lines lines (load_user u s) (higher u.id max_id)
]

-- The tables, and `next_user_id`, which stays as it is where there is no file.
unfoldable pub load_users : Option Bytes → ServerState → ℕ → Option (ServerState × ℕ)
unfolding load_lines get_lines
load_users none s next_id = some (s, next_id)
load_users (some text) s next_id = load_lines (get_lines 10 text) s 0
