-- ===== src/Server/Delivery/Laws.antt =====
-- What the loops of `Delivery` send and queue.
use mobile_chatting_app.Common.{
  ℕ, suc, ◌≡◌, refl, sym, ◌∙◌, Bool, true, false, List, [], ◌∷◌, ◌++◌, append-nil, append_assoc,
  ◌==◌, ==_iff, if◌then◌else◌, Map, find_or, nat_eq, lookup-insert, arith, replicate,
}
use mobile_chatting_app.Common.Bytes.{Bytes}
use mobile_chatting_app.Server.Data.{ServerState, PendingMsg, minus_one}
use mobile_chatting_app.Server.World.{World, Packet}
use mobile_chatting_app.Server.Delivery.{enqueue_offline, deliver, broadcast}

-- The messages that wait for a user.
abbrev pub queue_of : ℕ → ServerState → List PendingMsg
queue_of u s = find_or [] u s.offline_messages

-- The descriptor that a table of connections holds for a user, or -1.
abbrev pub fd_in : ℕ → Map ℕ ℕ → ℕ
fd_in u online = find_or minus_one u online

abbrev pub is_online : ℕ → Map ℕ ℕ → Bool
is_online u online = if fd_in u online == minus_one then false else true

-- How often a user stands in a list.
abbrev pub count : ℕ → List ℕ → ℕ
count a [] = 0
count a (x ∷ xs) = if x == a then suc (count a xs) else count a xs

-- One packet for each user of the list who is online, in order.
abbrev pub packets : List ℕ → ℕ → Bytes → ℕ → Map ℕ ℕ → List Packet
packets [] type text from online = []
packets (u ∷ us) type text from online =
    let rest = packets us type text from online in
    if is_online u online
    then record { fd = fd_in u online; type = type; payload = text; user_id = from } ∷ rest
    else rest

-- What waits for `u` after a message to the users of the list.
abbrev pub queue_after : ℕ → List ℕ → PendingMsg → ServerState → List PendingMsg
queue_after u us m s =
    queue_of u s ++ (if is_online u s.online_clients then [] else replicate (count u us) m)

abbrev pub pending : ℕ → Bytes → ℕ → PendingMsg
pending type text from = record { type = type; payload = text; from_user_id = from }

module _ {D : Type 0} (type : ℕ) (text : Bytes) (from : ℕ) where
  deliver-online :
      (u : ℕ) (w : World D)
      → (deliver u type text from w).state.online_clients ≡ w.state.online_clients
  unfolding deliver
  deliver-online u w = ground arith

  pub deliver-db : (u : ℕ) (w : World D) → (deliver u type text from w).db ≡ w.db
  unfolding deliver
  deliver-db u w = ground arith

  pub deliver-sent :
      (u : ℕ) (w : World D)
      → (deliver u type text from w).sent
        ≡ w.sent ++ packets (u ∷ []) type text from w.state.online_clients
  unfolding deliver
  deliver-sent u w = ground (arith, append-nil w.sent)

  pub deliver-queue :
      (u j : ℕ) (w : World D)
      → queue_of j (deliver u type text from w).state
        ≡ queue_after j (u ∷ []) (pending type text from) w.state
  unfolding deliver enqueue_offline
  deliver-queue u j w = ground (
    arith,
    append-nil (queue_of j w.state),
    ==_iff u j,
    lookup-insert u j (queue_of u w.state ++ (pending type text from ∷ []))
        w.state.offline_messages,
  )

module _ {D : Type 0} (type : ℕ) (text : Bytes) (from : ℕ) where
  -- A broadcast leaves the table of connections as it is.
  pub broadcast-online :
      (us : List ℕ) (w : World D)
      → (broadcast us type text from w).state.online_clients ≡ w.state.online_clients
  unfolding broadcast
  broadcast-online [] w = refl
  broadcast-online (u ∷ us) w =
      broadcast-online us (deliver u type text from w) ∙ deliver-online type text from u w

  -- A broadcast sends the message once to each user of the list who is online, in the order of the
  -- list, and sends nothing else.
  pub broadcast-sent :
      (us : List ℕ) (w : World D)
      → (broadcast us type text from w).sent
        ≡ w.sent ++ packets us type text from w.state.online_clients
  unfolding broadcast
  broadcast-sent [] w = sym (append-nil w.sent)
  broadcast-sent (u ∷ us) w =
      let online = w.state.online_clients in
      broadcast-sent us (deliver u type text from w)
      ∙ rw (deliver-sent type text from u w, deliver-online type text from u w)
          (ground (
            arith,
            append_assoc w.sent (packets (u ∷ []) type text from online)
                (packets us type text from online),
          ))

  -- After a broadcast a user who is offline has the message at the end of the queue, once for each
  -- time the list names the user; the queue of a user who is online is as before.
  pub broadcast-queue :
      (us : List ℕ) (j : ℕ) (w : World D)
      → queue_of j (broadcast us type text from w).state
        ≡ queue_after j us (pending type text from) w.state
  unfolding broadcast
  broadcast-queue [] j w = ground (arith, append-nil (queue_of j w.state))
  broadcast-queue (u ∷ us) j w =
      let m = pending type text from in
      broadcast-queue us j (deliver u type text from w)
      ∙ rw (deliver-queue type text from u j w, deliver-online type text from u w)
          (ground (
            arith,
            append_assoc (queue_of j w.state) (m ∷ []) (replicate (count j us) m),
            append-nil (queue_of j w.state),
            append-nil (queue_of j w.state ++ (m ∷ [])),
          ))

  pub broadcast-db : (us : List ℕ) (w : World D) → (broadcast us type text from w).db ≡ w.db
  unfolding broadcast
  broadcast-db [] w = refl
  broadcast-db (u ∷ us) w =
      broadcast-db us (deliver u type text from w) ∙ deliver-db type text from u w
