-- ===== src/Server/Handlers/Names.antt =====
-- What several handlers of server-cpp/src/message_handler.cpp compute in the same way.
use mobile_chatting_app.Common.{
  true, false, ℕ, ◌^◌, ◌+◌, ◌%◌, Bool, [], ◌∷◌, ◌++◌, leb, if◌then◌else◌, none, some, nat_eq,
  lookup, insert, find_or, touch, contains,
}
use mobile_chatting_app.Common.Bytes.{Bytes, codes}
use mobile_chatting_app.Common.Decimal.{to_string, to_string_int}
use mobile_chatting_app.Server.Data.{ServerState}

-- `a <= b` on `int`.
abbrev pub int_leb : ℕ → ℕ → Bool
int_leb a b = leb ((a + 2 ^ 31) % 2 ^ 32) ((b + 2 ^ 31) % 2 ^ 32)

-- `n + 1` on `int`.
abbrev pub int_suc : ℕ → ℕ
int_suc n = (n + 1) % 2 ^ 32

-- `g_users_by_id.count(id) ? g_users_by_id[id].username : other`
unfoldable pub username_or : Bytes → ℕ → ServerState → Bytes
username_or other id s = elim (lookup id s.users_by_id) [ none ↦ other | some u ↦ u.username ]

-- The name of a user whose id is an `int`.
unfoldable pub name_of : ℕ → ServerState → Bytes
unfolding username_or
name_of id s = username_or (codes "User" ++ to_string_int id) id s

-- The name of the session's user, whose id is a `uint32_t`.
unfoldable pub session_name : ℕ → ServerState → Bytes
unfolding username_or
session_name id s = username_or (codes "User" ++ to_string id) id s

-- `g_friends[a].count(b) && g_friends[a][b]`
unfoldable pub is_friend : ℕ → ℕ → ServerState → Bool
is_friend a b s = find_or false b (find_or [] a s.friends)

-- `g_friends[a];`
unfoldable pub touch_friends : ℕ → ServerState → ServerState
touch_friends a s = record s { friends = touch [] a s.friends }

-- `g_friends[a][b] = true;`
unfoldable pub set_friend : ℕ → ℕ → ServerState → ServerState
set_friend a b s = record s {
  friends = insert a (insert b true (find_or [] a s.friends)) s.friends;
}

-- `g_friend_requests[to];`
unfoldable pub touch_requests : ℕ → ServerState → ServerState
touch_requests to s = record s { friend_requests = touch [] to s.friend_requests }

-- `vec.push_back(from)` on `g_friend_requests[to]`, unless `std::find` finds it there.
unfoldable pub add_request : ℕ → ℕ → ServerState → ServerState
add_request to from s =
    let vec = find_or [] to s.friend_requests in
    record s {
      friend_requests =
          insert to (if contains from vec then vec else vec ++ (from ∷ [])) s.friend_requests;
    }
