-- ===== src/Client/Serializer/Responses.antt =====
-- app/src/main/cpp/message_serializer.cpp: what the client reads from the payloads of the server. The
-- variables that a method writes through its references are a record, which it is given and returns;
-- `none` is an exception of `std::stoul`, `std::stoull` or `std::stoi`.
use mobile_chatting_app.Common.{
  ℕ, zero, suc, ◌+◌, ◌%◌, ◌^◌, Bool, true, false, ◌||◌, ◌&&◌, not, List, [], ◌∷◌, ◌++◌, Option,
  none, some, ltb, if◌then◌else◌, Map, has, find_or,
}
use mobile_chatting_app.Common.Bytes.{Bytes, codes, bytes_beq, bytes_eq}
use mobile_chatting_app.Common.Decimal.{to_string, stoi, stoul}
use mobile_chatting_app.Client.Serializer.{deserialize}

-- `std::stoul` as a `uint32_t`.
unfoldable pub to_uint32 : Bytes → Option ℕ
to_uint32 s = elim (stoul s) [ none ↦ none | some n ↦ some (n % 2 ^ 32) ]

-- `map[key]` of a key that is there.
abbrev pub at : Bytes → Map Bytes Bytes → Bytes
at k m = find_or [] k m

pub record LoginResponse : Type 0 where
  pub user_id : ℕ
  pub token : Bytes
  pub success : Bool

unfoldable pub deserialize_login_response : Bytes → LoginResponse → Option (Bool × LoginResponse)
unfolding deserialize to_uint32
deserialize_login_response payload out =
    let m = deserialize payload in
    let success =
      bytes_beq (at (codes "success") m) (codes "true")
      || bytes_beq (at (codes "success") m) (codes "1") in
    let told : LoginResponse = record out { success = success } in
    if not (has (codes "success") m)
    then some (false, out)
    else if not success
    then some (true, told)
    else if not (has (codes "userId") m)
    then some (false, told)
    else elim (to_uint32 (at (codes "userId") m)) [
      | none ↦ none
      | some id ↦ some (
          if has (codes "token") m
          then (true, record told { user_id = id; token = at (codes "token") m })
          else (false, record told { user_id = id }))
    ]

pub record ChatMessage : Type 0 where
  pub sender_id : ℕ
  pub message : Bytes
  pub timestamp : ℕ

unfoldable pub deserialize_chat_message : Bytes → ChatMessage → Option (Bool × ChatMessage)
unfolding deserialize to_uint32
deserialize_chat_message payload out =
    let m = deserialize payload in
    if not (has (codes "senderId") m) || not (has (codes "message") m)
    then some (false, out)
    else elim (to_uint32 (at (codes "senderId") m)) [
      | none ↦ none
      | some id ↦
          elim (if has (codes "timestamp") m then stoul (at (codes "timestamp") m) else some 0) [
            | none ↦ none
            | some t ↦
                some
                  (true, record { sender_id = id; message = at (codes "message") m; timestamp = t })
          ]
    ]

-- The loop over the friends `i` to `i + n - 1`, behind those read before.
unfoldable pub friends_loop : Map Bytes Bytes → ℕ → ℕ → List (ℕ × Bytes) → Option (List (ℕ × Bytes))
unfolding to_uint32
friends_loop m zero i friends = some friends
friends_loop m (suc n) i friends =
    let id_key = codes "id" ++ to_string i in
    let name_key = codes "name" ++ to_string i in
    let skipped = friends_loop m n (i + 1) friends in
    if has id_key m && has name_key m
    then elim (to_uint32 (at id_key m)) [
      | none ↦ none
      | some id ↦ friends_loop m n (i + 1) (friends ++ ((id, at name_key m) ∷ []))
    ]
    else skipped

-- A count below zero has no rounds.
unfoldable pub deserialize_friends_list :
    Bytes → List (ℕ × Bytes) → Option (Bool × List (ℕ × Bytes))
unfolding deserialize friends_loop
deserialize_friends_list payload out =
    let m = deserialize payload in
    if not (has (codes "count") m) then some (false, out) else elim (stoi (at (codes "count") m)) [
      | none ↦ none
      | some count ↦ elim (friends_loop m (if ltb count (2 ^ 31) then count else 0) 0 []) [
        | none ↦ none
        | some friends ↦ some (true, friends)
      ]
    ]

pub record GroupText : Type 0 where
  pub group_id : ℕ
  pub sender_id : ℕ
  pub message : Bytes

unfoldable pub deserialize_group_message : Bytes → GroupText → Option (Bool × GroupText)
unfolding deserialize to_uint32
deserialize_group_message payload out =
    let m = deserialize payload in
    if not (has (codes "groupId") m)
      || not (has (codes "senderId") m)
      || not (has (codes "message") m)
    then some (false, out)
    else elim (to_uint32 (at (codes "groupId") m)) [
      | none ↦ none
      | some group ↦ elim (to_uint32 (at (codes "senderId") m)) [
        | none ↦ none
        | some id ↦
            some
              (true, record { group_id = group; sender_id = id; message = at (codes "message") m })
      ]
    ]
