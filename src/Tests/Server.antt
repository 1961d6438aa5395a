-- ===== src/Tests/Server.antt =====
-- Runs of the handlers and of whole sessions.
use mobile_chatting_app.Common.{
  ◌≡◌, ◌≢◌, ◌↔◌, ◌⊎◌, refl, true, false, List, [], ◌∷◌, none, some, lookup, insert, erase, nat_eq,
  arith,
}
use mobile_chatting_app.Common.Bytes.{Bytes, codes, bytes_eq, bytes_beq, is_empty}
use mobile_chatting_app.Common.Decimal.{stoi}
use mobile_chatting_app.Codec.Kv.{parse_kv, cut_at}
use mobile_chatting_app.Server.Protocol.{success, direct_message, group_message}
use mobile_chatting_app.Server.World.{ok, fault, field, monad}
use mobile_chatting_app.Server.Delivery.Laws.{pending}
use mobile_chatting_app.Server.Handlers.Groups.{group_payload, is_member, is_admin}
use mobile_chatting_app.Server.Handlers.Groups.Create.{recipients, handle_group_message}
use mobile_chatting_app.Server.Handlers.Groups.Membership.{
  handle_remove_from_group, handle_leave_group,
}
use mobile_chatting_app.Server.Handlers.Groups.Admin.{handle_make_admin}
use mobile_chatting_app.Server.Handlers.Messages.{
  direct_payload, handle_direct_message, handle_get_conversation_history,
}
use mobile_chatting_app.Server.Handlers.Account.{handle_login, handle_register, user_lines}
use mobile_chatting_app.Server.Messaging.Faults.{IsBad, HasBadLimit, get_conversation_history-fault}
use mobile_chatting_app.Server.Messaging.{
  Returns, IsSent, answered, direct_message-IsSent, group_message-IsSent,
}
use mobile_chatting_app.Server.Delivery.Laws.{is_online}
use mobile_chatting_app.Server.Messaging.Audience.{IsAudience, recipients-IsAudience}
use mobile_chatting_app.Server.Messaging.Forward.{IsLast, direct_message-login}
use mobile_chatting_app.Server.Messaging.Login.{delivered, LoggedIn, login-LoggedIn}
use mobile_chatting_app.Server.Accounts.{
  HasAccount, new_user, IsNew, register-HasAccount, register-login,
}
use mobile_chatting_app.Server.Roles.Rights.{
  IsRemoved, IsPromoted, permits, remove_from_group-IsRemoved, make_admin-IsPromoted,
}
use mobile_chatting_app.Server.Roles.Leave.{HasLeft, leave_group-HasLeft}
use mobile_chatting_app.Server.Frame.{Keeps}
use mobile_chatting_app.Server.People.{people}
use mobile_chatting_app.Server.People.Requests.{handle-SamePeople}
use mobile_chatting_app.Server.Session.{handle, serve}
use mobile_chatting_app.Server.Session.Termination.{serve-ne-none}
use mobile_chatting_app.Tests.Data.{
  counter, bob, trio, globals, in_memory, with_db, by_ann, by_nobody,
}

abbrev pub hello : Bytes
hello = codes "recipientId=2&message=hello"

hello_recipient : stoi (field (codes "recipientId") (parse_kv hello)) ≡ some 2
unfolding stoi parse_kv lookup cut_at insert
hello_recipient = refl

direct_message-IsSent_example :
    Returns (handle_direct_message counter by_ann hello with_db) (λ uid w'.
      (uid ≡ 1)
      × IsSent by_ann
          (2 ∷ [])
          direct_message
          (direct_payload 1 (field (codes "message") (parse_kv hello)) 100)
          (answered by_ann success (codes "Message sent"))
          with_db
          w')
direct_message-IsSent_example = direct_message-IsSent counter by_ann hello 2 with_db hello_recipient

abbrev to_trio : Bytes
to_trio = codes "groupId=9&userId=2&message=hello"

to_trio_group : stoi (field (codes "groupId") (parse_kv to_trio)) ≡ some 9
unfolding stoi parse_kv lookup cut_at insert
to_trio_group = refl

to_trio_user : stoi (field (codes "userId") (parse_kv to_trio)) ≡ some 2
unfolding stoi parse_kv lookup cut_at insert
to_trio_user = refl

to_trio_recipients : recipients counter by_ann 9 in_memory ≡ ok (some (2 ∷ 3 ∷ [])) in_memory
unfolding recipients monad lookup is_member
to_trio_recipients = refl

group_message-IsSent_example :
    Returns (handle_group_message counter by_ann to_trio in_memory) (λ uid w'.
      (uid ≡ 1)
      × IsSent by_ann
          (2 ∷ 3 ∷ [])
          group_message
          (group_payload 9 1 (field (codes "message") (parse_kv to_trio)) 100500)
          (answered by_ann success (codes "Group message sent"))
          in_memory
          w')
group_message-IsSent_example =
    group_message-IsSent counter by_ann to_trio 9 (2 ∷ 3 ∷ []) in_memory in_memory to_trio_group
      to_trio_recipients

abbrev bob_login : Bytes
bob_login = codes "username=bob&password=b"

bob_found : lookup (field (codes "username") (parse_kv bob_login)) globals.users_by_name ≡ some bob
unfolding parse_kv lookup cut_at insert
bob_found = refl

bob_password : bytes_beq (codes "b") (field (codes "password") (parse_kv bob_login)) ≡ true
unfolding parse_kv lookup cut_at insert
bob_password = refl

login-LoggedIn_example :
    Returns (handle_login counter by_nobody bob_login with_db) (LoggedIn 2 6 globals)
login-LoggedIn_example =
    login-LoggedIn counter by_nobody bob_login bob with_db bob_found bob_password

abbrev carl : Bytes
carl = codes "username=carl&password=c&phone=3"

carl-IsNew : IsNew (parse_kv carl) globals
unfolding parse_kv lookup cut_at insert
carl-IsNew = (refl, refl)

register-HasAccount_example : Returns (handle_register counter by_nobody carl in_memory) (λ uid w'.
    (uid ≡ 3)
    × HasAccount (new_user uid (parse_kv carl) 6) globals w'.state
    × (w'.users_file ≡ some (user_lines globals.users_by_name)))
register-HasAccount_example = register-HasAccount counter by_nobody carl in_memory carl-IsNew refl

register-login_example :
    Returns
      (handle_register counter by_nobody carl in_memory)
      (λ uid w1. Returns (handle_login counter by_nobody carl w1) (LoggedIn uid 6 w1.state))
register-login_example =
    register-login counter by_nobody by_nobody carl carl in_memory carl-IsNew refl refl refl

remove_from_group-IsRemoved_example :
    Returns
      (handle_remove_from_group counter by_ann to_trio in_memory)
      (λ v w'. (v ≡ 1) × IsRemoved (permits 9 2 1 globals) 9 2 globals w'.state)
remove_from_group-IsRemoved_example =
    remove_from_group-IsRemoved counter by_ann to_trio 9 2 in_memory to_trio_group to_trio_user refl

make_admin-IsPromoted_example :
    Returns
      (handle_make_admin counter by_ann to_trio in_memory)
      (λ v w'. (v ≡ 1) × IsPromoted (is_admin 9 1 globals) 9 2 globals w'.state)
make_admin-IsPromoted_example =
    make_admin-IsPromoted counter by_ann to_trio 9 2 in_memory to_trio_group to_trio_user refl

trio_found : lookup 9 globals.groups ≡ some trio
unfolding lookup
trio_found = refl

trio_others : is_empty (erase 1 trio.members) ≡ false
unfolding erase
trio_others = refl

leave_group-HasLeft_example :
    Returns
      (handle_leave_group counter by_ann to_trio with_db)
      (λ v w'. (v ≡ 1) × HasLeft 9 1 globals w'.state)
leave_group-HasLeft_example =
    leave_group-HasLeft counter by_ann to_trio 9 trio with_db to_trio_group trio_found trio_others

abbrev session : List Bytes
session = codes "bytes of a client" ∷ []

serve-ne-none_example : serve counter 18 6 (λ n. n) 0 session with_db ≢ none
serve-ne-none_example = serve-ne-none counter 18 6 (λ n. n) 0 session with_db (omega arith)

handle-SamePeople_example : Keeps people (handle counter by_ann direct_message hello)
handle-SamePeople_example =
    handle-SamePeople counter by_ann direct_message hello (omega arith) (omega arith) (omega arith)

bob_offline : is_online 2 globals.online_clients ≡ false
unfolding lookup
bob_offline = refl

direct_message-login_example : Returns (handle_direct_message counter by_ann hello with_db) (λ v w1.
    Returns (handle_login counter by_nobody bob_login w1) (λ x w2.
      IsLast
        (delivered 6 (
          pending direct_message
            (direct_payload 1 (field (codes "message") (parse_kv hello)) 100)
            1))
        w2))
direct_message-login_example =
    direct_message-login counter by_ann by_nobody hello bob_login bob with_db hello_recipient
      bob_offline bob_found bob_password

recipients-IsAudience_example :
    Returns
      (recipients counter by_ann 9 in_memory)
      (λ found w'. (w' ≡ in_memory) × IsAudience 9 1 globals found)
recipients-IsAudience_example = recipients-IsAudience counter by_ann 9 in_memory refl

get_conversation_history-fault_example :
    (handle_get_conversation_history counter by_ann (codes "otherUserId=2&limit=x") with_db ≡ fault)
    ↔ (IsBad (codes "otherUserId") (codes "otherUserId=2&limit=x")
        ⊎ (HasBadLimit (codes "otherUserId=2&limit=x") ⊎ (with_db.db ≡ none)))
get_conversation_history-fault_example =
    get_conversation_history-fault counter by_ann (codes "otherUserId=2&limit=x") with_db
