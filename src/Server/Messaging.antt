-- ===== src/Server/Messaging.antt =====
-- What the handlers of DIRECT_MESSAGE, GROUP_MESSAGE and LOGIN (server-cpp/src/message_handler.cpp)
-- do with the messages of the users.
pub mod Login
pub mod Forward
pub mod Audience
pub mod Faults
use mobile_chatting_app.Common.{
  ℕ, zero, suc, ◌+◌, ◌*◌, ◌/◌, ◌≡◌, ◌≢◌, refl, sym, ap, ◌∙◌, Bool, true, false, List, [], ◌∷◌, ◌++◌,
  append-nil, append_assoc, ◌==◌, ==_iff, if◌then◌else◌, Map, lookup, insert, find_or, nat_eq,
  lookup-insert, lookup-erase, Option, none, some, Option-cases, Bool-cases, inl, inr, arith, subst,
  map, replicate,
}
use mobile_chatting_app.Common.Bytes.{Bytes, codes}
use mobile_chatting_app.Common.Decimal.{stoi}
use mobile_chatting_app.Codec.Kv.{parse_kv}
use mobile_chatting_app.Server.Protocol.{success, error, direct_message, group_message}
use mobile_chatting_app.Server.Data.{ServerState, PendingMsg, minus_one}
use mobile_chatting_app.Server.Database.{Database}
use mobile_chatting_app.Server.Frame.{After}
use mobile_chatting_app.Server.World.{World, Packet, Result, ok, fault, Context, send, field, monad}
use mobile_chatting_app.Server.Delivery.{deliver, broadcast}
use mobile_chatting_app.Server.Delivery.Laws.{
  queue_of, queue_after, packets, pending, count, deliver-queue, deliver-sent, broadcast-queue,
  broadcast-sent,
}
use mobile_chatting_app.Server.Handlers.Groups.{group_payload, is_member, members_of}
use mobile_chatting_app.Server.Handlers.Groups.Create.{all_but, recipients, handle_group_message}
use mobile_chatting_app.Server.Handlers.Messages.{direct_payload, handle_direct_message}

-- The handler returns, and the result and the state it leaves are as `P` says.
abbrev pub Returns : {D A : Type 0} → Result D A → (A → World D → Type 0) → Type 0
Returns fault P = ⊥
Returns (ok a w) P = P a w

pub Returns-map :
    {D A : Type 0} {P Q : A → World D → Type 0} (r : Result D A)
    → ((a : A) (w : World D) → P a w → Q a w)
    → Returns r P
    → Returns r Q
Returns-map fault f h = h
Returns-map (ok a w) f h = f a w h

-- A run that returns, and what the frame of the handler says of it.
pub Returns-After :
    {D A : Type 0} {P Q R : A → World D → Type 0} (r : Result D A)
    → ((a : A) (w : World D) → P a w → Q a w → R a w)
    → Returns r P
    → After r Q
    → Returns r R
Returns-After fault f h k = h
Returns-After (ok a w) f h k = f a w h k

-- The answer of a handler to its own client.
abbrev pub answered : Context → ℕ → Bytes → Packet
answered c type text = record {
  fd = c.fd;
  type = type;
  payload = text;
  user_id = c.current_user_id;
}

-- From `w` to `w'` the text went to the users `us`: once to each who is online, once more at the end
-- of the queue of each who is not; then the client had its answer.
abbrev pub IsSent :
    {D : Type 0} → Context → List ℕ → ℕ → Bytes → Packet → World D → World D → Type 0
IsSent c us type text answer w w' =
    (w'.sent
      ≡ (w.sent ++ packets us type text c.current_user_id w.state.online_clients) ++ (answer ∷ []))
    × ((j : ℕ)
        → queue_of j w'.state ≡ queue_after j us (pending type text c.current_user_id) w.state)

whole_seconds : (n : ℕ) → n * 1000 / 1000 ≡ n
whole_seconds n = omega arith

module _ {D : Type 0} (db : Database D) (c : Context) where
  -- DIRECT_MESSAGE with a number for its recipient always succeeds: the text goes to the recipient
  -- who is online, else to the end of the recipient's queue, and to nobody else.
  pub direct_message-IsSent :
      (payload : Bytes) (to : ℕ) (w : World D)
      → stoi (field (codes "recipientId") (parse_kv payload)) ≡ some to
      → Returns (handle_direct_message db c payload w) (λ uid w'.
        (uid ≡ c.current_user_id)
        × IsSent c
            (to ∷ [])
            direct_message
            (direct_payload c.current_user_id
              (field (codes "message") (parse_kv payload))
              c.seconds)
            (answered c success (codes "Message sent"))
            w
            w')
  unfolding handle_direct_message monad
  direct_message-IsSent payload to w e =
      let text : Bytes =
        direct_payload c.current_user_id (field (codes "message") (parse_kv payload)) c.seconds in
      let sent : Packet = answered c success (codes "Message sent") in
      let after : (o : Option D)
          → IsSent c (to ∷ []) direct_message text sent w (
              send c.fd success (codes "Message sent") c.current_user_id
                (deliver to direct_message text c.current_user_id (record w { db = o }))) =
        λ o. (
          ap (λ p. p ++ (sent ∷ []))
              (deliver-sent direct_message text c.current_user_id to (record w { db = o })),
          λ j. deliver-queue direct_message text c.current_user_id to j (record w { db = o }),
        ) in
      elim (Option-cases w.db) [
        | inl z ↦ rw (e, Returns, z, whole_seconds c.seconds) (refl, after none)
        | inr (d, z) ↦
            rw (e, Returns, z, whole_seconds c.seconds)
              (
                refl,
                after (
                    some
                      (db.save_message c.current_user_id to
                        (field (codes "message") (parse_kv payload)) (c.seconds * 1000) d).1),
              )
      ]

  -- Asking who is in the group sends nothing and changes no global.
  recipients-Same :
      (gid : ℕ) (w : World D)
      → After (recipients db c gid w) (λ _ w'. (w'.state ≡ w.state) × (w'.sent ≡ w.sent))
  unfolding recipients monad
  recipients-Same gid w = elim (Option-cases w.db) [
    | inl z ↦ rw (After, z) (refl, refl)
    | inr (d, z) ↦ elim (Bool-cases (db.is_group_member gid c.current_user_id d).0) [
      | inl member ↦ rw (After, z, member) (refl, refl)
      | inr outsider ↦ rw (After, z, outsider) (refl, refl)
    ]
  ]

  -- The same from an earlier world with the same globals and the same messages sent.
  IsSent-from :
      (us : List ℕ) (type : ℕ) (text : Bytes) (answer : Packet) (w w1 w' : World D)
      → (w1.state ≡ w.state) × (w1.sent ≡ w.sent)
      → IsSent c us type text answer w1 w'
      → IsSent c us type text answer w w'
  IsSent-from us type text answer w w1 w' (e, f) (s, q) = (
    s
        ∙ ap
            (λ t.
              (t ++ packets us type text c.current_user_id w1.state.online_clients)
              ++ (answer ∷ []))
            f
        ∙ ap
            (λ g.
              (w.sent ++ packets us type text c.current_user_id g.online_clients) ++ (answer ∷ []))
            e,
    λ j. q j ∙ ap (queue_after j us (pending type text c.current_user_id)) e,
  )

  -- GROUP_MESSAGE with a number for its group always succeeds where `recipients` finds the list
  -- `members`: from the start of the request on, the text goes to the users of that list, and to nobody
  -- else, once for each time that the list names the user: to the connection of a user who is online,
  -- to the end of the queue of one who is not; then the sender has its answer.
  pub group_message-IsSent :
      (payload : Bytes) (gid : ℕ) (members : List ℕ) (w w1 : World D)
      → stoi (field (codes "groupId") (parse_kv payload)) ≡ some gid
      → recipients db c gid w ≡ ok (some members) w1
      → Returns (handle_group_message db c payload w) (λ uid w'.
        (uid ≡ c.current_user_id)
        × IsSent c members group_message
            (group_payload gid c.current_user_id
              (field (codes "message") (parse_kv payload))
              c.millis)
            (answered c success (codes "Group message sent"))
            w
            w')
  unfolding handle_group_message monad
  group_message-IsSent payload gid members w w1 e found =
      let text : Bytes =
        group_payload gid c.current_user_id (field (codes "message") (parse_kv payload)) c.millis in
      let sent : Packet = answered c success (codes "Group message sent") in
      let asked : (w1.state ≡ w.state) × (w1.sent ≡ w.sent) =
        subst (λ r. After r (λ _ w'. (w'.state ≡ w.state) × (w'.sent ≡ w.sent))) found
          (recipients-Same gid w) in
      let after : (o : Option D)
          → IsSent c members group_message text sent w (
              send c.fd success (codes "Group message sent") c.current_user_id
                (broadcast members group_message text c.current_user_id (record w1 { db = o }))) =
        λ o.
          IsSent-from members group_message text sent w w1
            (send c.fd success (codes "Group message sent") c.current_user_id
              (broadcast members group_message text c.current_user_id (record w1 { db = o })))
            asked
            (
              ap (λ p. p ++ (sent ∷ []))
                  (broadcast-sent group_message text c.current_user_id members
                    (record w1 { db = o })),
              λ j.
                  broadcast-queue group_message text c.current_user_id members j
                    (record w1 { db = o }),
            ) in
      elim (Option-cases w1.db) [
        | inl z ↦ rw (e, Returns, found, z) (refl, after none)
        | inr (d, z) ↦
            rw (e, Returns, found, z)
              (
                refl,
                after (
                    some
                      (db.save_group_message gid c.current_user_id
                        (field (codes "message") (parse_kv payload)) c.millis d).1),
              )
      ]
