-- ===== src/Client/Serializer/Requests.antt =====
-- app/src/main/cpp/message_serializer.cpp: the payloads that the client sends.
use mobile_chatting_app.Common.{ℕ, List, [], ◌∷◌, ◌++◌}
use mobile_chatting_app.Common.Bytes.{Bytes, codes}
use mobile_chatting_app.Common.Decimal.{to_string}
use mobile_chatting_app.Client.Serializer.{put, serialize}

unfoldable pub serialize_login_request : Bytes → Bytes → Bytes
unfolding put serialize
serialize_login_request username password =
    serialize (put (codes "password") password (put (codes "username") username []))

unfoldable pub serialize_register_request : Bytes → Bytes → Bytes → Bytes
unfolding put serialize
serialize_register_request username password email = serialize (
    put (codes "email") email
      (put (codes "password") password (put (codes "username") username [])))

unfoldable pub serialize_chat_message : ℕ → Bytes → Bytes
unfolding put serialize
serialize_chat_message recipient_id message =
    serialize
      (put (codes "message") message (put (codes "recipientId") (to_string recipient_id) []))

unfoldable pub serialize_group_message : ℕ → Bytes → Bytes
unfolding put serialize
serialize_group_message group_id message =
    serialize (put (codes "message") message (put (codes "groupId") (to_string group_id) []))

unfoldable pub serialize_friend_request : ℕ → Bytes
unfolding put serialize
serialize_friend_request target_user_id =
    serialize (put (codes "targetUserId") (to_string target_user_id) [])

-- The members after the first, each behind a comma, and all of them.
unfoldable pub rest_members : List ℕ → Bytes
rest_members [] = []
rest_members (id ∷ ids) = b',' ∷ (to_string id ++ rest_members ids)

unfoldable pub join_members : List ℕ → Bytes
unfolding rest_members
join_members [] = []
join_members (id ∷ ids) = to_string id ++ rest_members ids

unfoldable pub serialize_create_group : Bytes → List ℕ → Bytes
unfolding put serialize join_members
serialize_create_group group_name member_ids =
    serialize
      (put (codes "memberIds") (join_members member_ids) (put (codes "groupName") group_name []))
