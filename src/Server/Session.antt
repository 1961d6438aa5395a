-- ===== src/Server/Session.antt =====
-- `handle_client` (server-cpp/src/message_handler.cpp): the switch over the type of a request, and
-- the loop of a session. The bytes of a connection arrive in pieces (Wire/Stream.antt).
pub mod Termination
pub mod Ending
pub mod Requests
use mobile_chatting_app.Common.{
  ℕ, zero, suc, ◌+◌, ◌/◌, Bool, true, false, ◌||◌, not, List, [], ◌==◌, ltb, if◌then◌else◌, Option,
  none, some,
}
use mobile_chatting_app.Common.Bytes.{Bytes, codes}
use mobile_chatting_app.Wire.Header.{Header, read_header}
use mobile_chatting_app.Wire.Stream.{recv_all}
use mobile_chatting_app.Server.Protocol.{
  magic, version, header_size, register, login, logout, search_user, get_all_users, friend_request,
  friend_accept, friend_decline, unfriend, get_friends_list, direct_message,
  get_conversation_history, get_group_history, get_user_groups, rename_group, set_group_nickname,
  delete_conversation, create_group, invite_to_group, accept_group_invite, decline_group_invite,
  make_admin, remove_from_group, leave_group, group_message, success, error,
}
use mobile_chatting_app.Server.Database.{Database}
use mobile_chatting_app.Server.World.{
  World, Result, ok, fault, M, ◌>>=◌, ◌>>◌, pure, exec, send, send_message, Context,
}
use mobile_chatting_app.Server.Handlers.Account.{
  handle_register, handle_login, handle_logout, cleanup,
}
use mobile_chatting_app.Server.Handlers.Lookup.{handle_search_user, handle_get_all_users}
use mobile_chatting_app.Server.Handlers.Friends.{
  handle_get_friends_list, handle_friend_request, handle_friend_accept, handle_friend_decline,
  handle_unfriend,
}
use mobile_chatting_app.Server.Handlers.Messages.{
  handle_direct_message, handle_get_conversation_history, handle_get_group_history,
  handle_delete_conversation,
}
use mobile_chatting_app.Server.Handlers.Groups.Create.{handle_create_group, handle_group_message}
use mobile_chatting_app.Server.Handlers.Groups.Membership.{
  handle_invite_to_group, handle_accept_group_invite, handle_decline_group_invite,
  handle_remove_from_group, handle_leave_group,
}
use mobile_chatting_app.Server.Handlers.Groups.Admin.{
  handle_rename_group, handle_set_group_nickname, handle_make_admin,
}
use mobile_chatting_app.Server.Handlers.Groups.Listing.{handle_get_user_groups}

-- How a round of the loop ends.
pub data Round (D : Type 0) : Type 0 where
  next : ℕ → List Bytes → World D → Round D
  stop : ℕ → World D → Round D
  crash : Round D

module _ {D : Type 0} (db : Database D) where
  -- The cases about groups, HEARTBEAT and the default.
  unfoldable pub handle_group : Context → ℕ → Bytes → M D ℕ
  handle_group c type payload =
      if type == create_group
      then handle_create_group db c payload
      else if type == invite_to_group
      then handle_invite_to_group db c payload
      else if type == accept_group_invite
      then handle_accept_group_invite db c payload
      else if type == decline_group_invite
      then handle_decline_group_invite db c payload
      else if type == rename_group
      then handle_rename_group db c payload
      else if type == set_group_nickname
      then handle_set_group_nickname db c payload
      else if type == remove_from_group
      then handle_remove_from_group db c payload
      else if type == make_admin
      then handle_make_admin db c payload
      else if type == leave_group
      then handle_leave_group db c payload
      else if type == group_message
      then handle_group_message db c payload
      else (do send_message c.fd success [] c.current_user_id; pure c.current_user_id)

  -- The `switch`.
  unfoldable pub handle : Context → ℕ → Bytes → M D ℕ
  handle c type payload =
      if type == register
      then handle_register db c payload
      else if type == login
      then handle_login db c payload
      else if type == logout
      then handle_logout db c
      else if type == search_user
      then handle_search_user c payload
      else if type == get_all_users
      then handle_get_all_users c
      else if type == get_friends_list
      then handle_get_friends_list db c
      else if type == friend_request
      then handle_friend_request db c payload
      else if type == friend_accept
      then handle_friend_accept db c payload
      else if type == friend_decline
      then handle_friend_decline db c payload
      else if type == unfriend
      then handle_unfriend db c payload
      else if type == direct_message
      then handle_direct_message db c payload
      else if type == get_conversation_history
      then handle_get_conversation_history db c payload
      else if type == get_group_history
      then handle_get_group_history db c payload
      else if type == get_user_groups
      then handle_get_user_groups db c
      else if type == delete_conversation
      then handle_delete_conversation db c payload
      else handle_group c type payload

  -- The payload behind a header.
  unfoldable pub read_request : Header → List Bytes → Option (Bytes × List Bytes)
  read_request h input = if ltb 0 h.length then recv_all h.length input else some ([], input)

  -- The round after a valid header and its payload.
  unfoldable pub answer : ℕ → ℕ → ℕ → Header → Bytes → List Bytes → World D → Round D
  answer fd millis uid h payload input w =
      let c : Context = record {
        fd = fd;
        current_user_id = uid;
        requester_id = if h.sender_user_id == 0 then uid else h.sender_user_id;
        seconds = millis / 1000;
        millis = millis;
      } in
      elim (handle c h.type payload w) [
        | fault ↦ crash
        | ok uid' w' ↦ if h.type == logout then stop uid' w' else next uid' input w'
      ]

  -- One round of `while (true)`.
  unfoldable pub round : ℕ → ℕ → ℕ → List Bytes → World D → Round D
  round fd millis uid input w = elim (recv_all header_size input) [
    | none ↦ stop uid w
    | some (buf, rest) ↦
        let h = read_header buf in
        if not (h.magic == magic) || not (h.version == version)
        then stop uid (send fd error (codes "Invalid header") 0 w)
        else elim (read_request h rest) [
          | none ↦ stop uid w
          | some (payload, rest') ↦ answer fd millis uid h payload rest' w
        ]
  ]

  -- The session from its `fuel` last rounds on; `millis` is the clock of each round. The outer
  -- `none` means that the fuel ran out.
  unfoldable pub serve : ℕ → ℕ → (ℕ → ℕ) → ℕ → List Bytes → World D → Option (Option (World D))
  serve zero fd millis uid input w = none
  serve (suc fuel) fd millis uid input w = elim (round fd (millis fuel) uid input w) [
    | crash ↦ some none
    | stop uid' w' ↦ some (some (cleanup uid' w'))
    | next uid' input' w' ↦ serve fuel fd millis uid' input' w'
  ]
