-- ===== src/Server/Messaging/Forward.antt =====
-- A direct message to a user who is offline, and the user's next LOGIN
-- (server-cpp/src/message_handler.cpp).
use mobile_chatting_app.Common.{
  ℕ, ◌≡◌, refl, sym, ap, ◌∙◌, subst, true, false, List, [], ◌∷◌, ◌++◌, append_assoc, ==_refl,
  lookup, some, map,
}
use mobile_chatting_app.Common.Bytes.{Bytes, codes, bytes_eq, bytes_beq}
use mobile_chatting_app.Common.Decimal.{stoi}
use mobile_chatting_app.Codec.Kv.{parse_kv}
use mobile_chatting_app.Server.Protocol.{direct_message, success}
use mobile_chatting_app.Server.Data.{User, ServerState, PendingMsg}
use mobile_chatting_app.Server.Database.{Database}
use mobile_chatting_app.Server.World.{World, Packet, Context, field}
use mobile_chatting_app.Server.People.{SamePeople}
use mobile_chatting_app.Server.People.Requests.{direct-Keeps}
use mobile_chatting_app.Server.Delivery.Laws.{queue_of, queue_after, is_online, pending}
use mobile_chatting_app.Server.Messaging.{
  Returns, Returns-map, Returns-After, IsSent, answered, direct_message-IsSent,
}
use mobile_chatting_app.Server.Messaging.Login.{delivered, LoggedIn, login-LoggedIn}
use mobile_chatting_app.Server.Handlers.Messages.{direct_payload, handle_direct_message}
use mobile_chatting_app.Server.Handlers.Account.{handle_login}

-- The last packet that was sent.
abbrev pub IsLast : {D : Type 0} → Packet → World D → Type 0
IsLast p w = (before : List Packet) × (w.sent ≡ before ++ (p ∷ []))

map-append :
    (fd : ℕ) (xs ys : List PendingMsg)
    → map (delivered fd) (xs ++ ys) ≡ map (delivered fd) xs ++ map (delivered fd) ys
map-append fd [] ys = refl
map-append fd (x ∷ xs) ys = ap (λ t. delivered fd x ∷ t) (map-append fd xs ys)

queue_after_one :
    (u : ℕ) (m : PendingMsg) (s : ServerState)
    → is_online u s.online_clients ≡ false
    → queue_after u (u ∷ []) m s ≡ queue_of u s ++ (m ∷ [])
queue_after_one u m s offline = rw (offline, ==_refl u) refl

LoggedIn-IsLast :
    {D : Type 0} (u fd : ℕ) (m : PendingMsg) (s t : ServerState) (v : ℕ) (w : World D)
    → queue_of u t ≡ queue_of u s ++ (m ∷ [])
    → LoggedIn u fd t v w
    → IsLast (delivered fd m) w
LoggedIn-IsLast u fd m s t v w e (_, (before, sent), _, _) = (
  before ++ map (delivered fd) (queue_of u s),
  sent
      ∙ rw (e, map-append fd (queue_of u s) (m ∷ []))
          (sym (append_assoc before (map (delivered fd) (queue_of u s)) (delivered fd m ∷ []))),
)

module _ {D : Type 0} (db : Database D) (c d : Context) where
  -- A direct message to a known user who is offline is not lost: the sender's request returns, and
  -- when the user logs in next, from any connection, the last packet the user gets is this message.
  pub direct_message-login :
      (payload again : Bytes) (u : User) (w : World D)
      → stoi (field (codes "recipientId") (parse_kv payload)) ≡ some u.id
      → is_online u.id w.state.online_clients ≡ false
      → lookup (field (codes "username") (parse_kv again)) w.state.users_by_name ≡ some u
      → bytes_beq u.password_hash (field (codes "password") (parse_kv again)) ≡ true
      → Returns (handle_direct_message db c payload w) (λ v w1.
        Returns (handle_login db d again w1) (λ x w2.
          IsLast
            (delivered d.fd (
              pending direct_message
                (direct_payload c.current_user_id
                  (field (codes "message") (parse_kv payload))
                  c.seconds)
                c.current_user_id))
            w2))
  direct_message-login payload again u w recipient offline found same =
      let text =
        direct_payload c.current_user_id (field (codes "message") (parse_kv payload)) c.seconds in
      let m = pending direct_message text c.current_user_id in
      let name = field (codes "username") (parse_kv again) in
      Returns-After
        {P = λ v w1.
          (v ≡ c.current_user_id)
          × IsSent c (u.id ∷ []) direct_message text (answered c success (codes "Message sent")) w
              w1}
        {Q = λ v w1. SamePeople w.state w1.state} (handle_direct_message db c payload w)
        (λ v w1 h k.
          Returns-map {P = LoggedIn u.id d.fd w1.state} (handle_login db d again w1)
            (λ x w2.
              LoggedIn-IsLast u.id d.fd m w.state w1.state x w2
                (h.1.1 u.id ∙ queue_after_one u.id m w.state offline))
            (login-LoggedIn db d again u w1 (subst (λ t. lookup name t ≡ some u) k.names found)
              same))
        (direct_message-IsSent db c payload u.id w recipient) ((direct-Keeps db c payload).keeps w)
