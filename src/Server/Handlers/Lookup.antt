-- ===== src/Server/Handlers/Lookup.antt =====
-- SEARCH_USER and GET_ALL_USERS (server-cpp/src/message_handler.cpp).
use mobile_chatting_app.Common.{
  ℕ, ◌+◌, Bool, true, false, ◌||◌, ◌&&◌, List, [], ◌∷◌, ◌++◌, ◌==◌, leb, if◌then◌else◌, Map, map,
}
use mobile_chatting_app.Common.Bytes.{Bytes, codes}
use mobile_chatting_app.Common.Decimal.{to_string, to_string_int}
use mobile_chatting_app.Codec.Kv.{parse_kv, serialize_kv}
use mobile_chatting_app.Server.Protocol.{success}
use mobile_chatting_app.Server.Data.{User, ServerState}
use mobile_chatting_app.Server.World.{World, M, pure, ◌>>◌, exec, send, field, Context}
use mobile_chatting_app.Server.Handlers.Names.{is_friend, touch_friends}

-- `::tolower` in the C locale.
abbrev pub to_lower : ℕ → ℕ
to_lower c = if leb b'A' c && leb c b'Z' then c + 32 else c

abbrev starts_with : Bytes → Bytes → Bool
starts_with [] s = true
starts_with (c ∷ p) [] = false
starts_with (c ∷ p) (d ∷ s) = c == d && starts_with p s

-- `s.find(p) != npos`
unfoldable pub is_substring : Bytes → Bytes → Bool
is_substring p [] = starts_with p []
is_substring p (c ∷ s) = starts_with p (c ∷ s) || is_substring p s

unfoldable pub matches : Bytes → User → Bool
unfolding is_substring
matches query u = is_substring (map to_lower query) (map to_lower u.username)

-- `"key" + std::to_string(i)`
abbrev pub numbered : Bytes → ℕ → Bytes
numbered key i = key ++ to_string i

abbrev pub flag : Bool → Bytes
flag true = codes "1"
flag false = codes "0"

abbrev pub Items : Type 0
Items = List (Bytes × Bytes)

-- The loop of SEARCH_USER over `g_users_by_name`: it stops at the twentieth match, and a match
-- makes an entry of `g_friends` for the requester.
unfoldable pub search_loop :
    ℕ → Bytes → Map Bytes User → ℕ → Items → ServerState → ℕ × Items × ServerState
search_loop requester query [] count items s = (count, items, s)
search_loop requester query ((k, u) ∷ m) count items s =
    let skip = search_loop requester query m count items s in
    let items' =
      items
      ++ ((numbered (codes "id") count, to_string_int u.id)
          ∷ (numbered (codes "name") count, u.username)
          ∷ (numbered (codes "phone") count, u.phone)
          ∷ (numbered (codes "isFriend") count, flag (is_friend requester u.id s))
          ∷ []) in
    let s' = touch_friends requester s in
    let more = search_loop requester query m (count + 1) items' s' in
    if u.id == requester
    then skip
    else if matches query u
    then if leb 20 (count + 1) then (count + 1, items', s') else more
    else skip

-- The loop of GET_ALL_USERS over `g_users_by_id`.
unfoldable pub all_users_loop : ℕ → Map ℕ User → ℕ → Items → ServerState → ℕ × Items × ServerState
all_users_loop requester [] count items s = (count, items, s)
all_users_loop requester ((uid, u) ∷ m) count items s =
    let skip = all_users_loop requester m count items s in
    let items' =
      items
      ++ ((numbered (codes "id") count, to_string_int uid)
          ∷ (numbered (codes "name") count, u.username)
          ∷ (numbered (codes "isFriend") count, flag (is_friend requester uid s))
          ∷ []) in
    let more = all_users_loop requester m (count + 1) items' (touch_friends requester s) in
    if uid == requester then skip else more

module _ {D : Type 0} (c : Context) where
  open c use {fd, current_user_id, requester_id}

  -- The answer: the number of users found in front of the items.
  unfoldable pub answer : ℕ × Items × ServerState → World D → World D
  answer (count, items, s) w =
      send fd success (serialize_kv ((codes "count", to_string count) ∷ items)) requester_id
        (record w { state = s })

  unfoldable pub handle_search_user : Bytes → M D ℕ
  handle_search_user payload = do
    let query = field (codes "query") (parse_kv payload)
    exec (λ w. answer (search_loop requester_id query w.state.users_by_name 0 [] w.state) w)
    pure current_user_id

  unfoldable pub handle_get_all_users : M D ℕ
  handle_get_all_users = do
    exec (λ w. answer (all_users_loop requester_id w.state.users_by_id 0 [] w.state) w)
    pure current_user_id
