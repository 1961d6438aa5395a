-- ===== src/Server/Interleaving.antt =====
-- Requests of any number of connections in any order, as the threads of `handle_client`
-- (server-cpp/src/message_handler.cpp) take them: a step is a whole request or the end of a session.
-- The user and the descriptor of a request are any.
use mobile_chatting_app.Common.{ℕ, ◌≡◌, subst, Bool-cases, inl, inr, ◌==◌, false}
use mobile_chatting_app.Common.Bytes.{Bytes}
use mobile_chatting_app.Server.Database.{Database}
use mobile_chatting_app.Server.World.{World, ok, Context}
use mobile_chatting_app.Server.Frame.{Frame, Keeps, After}
use mobile_chatting_app.Server.People.{notify_friends-SamePeople}
use mobile_chatting_app.Server.People.Requests.{set_offline-SamePeople}
use mobile_chatting_app.Server.Friendship.{IsMutual, mutual_frame, handle-IsMutual}
use mobile_chatting_app.Server.Accounts.Lasting.{Lasts, lasting, handle-Lasts, SamePeople-Lasts}
use mobile_chatting_app.Server.Handlers.Account.{cleanup, set_offline}
use mobile_chatting_app.Server.Delivery.{notify_friends_status_change}
use mobile_chatting_app.Server.Session.{handle}
use mobile_chatting_app.Server.Session.Ending.{cleanup-IsMutual}

pub data Step {D : Type 0} (db : Database D) : World D → World D → Type 0 where
  request :
      (c : Context) (type : ℕ) (payload : Bytes) (uid : ℕ) (w w' : World D)
      → handle db c type payload w ≡ ok uid w'
      → Step db w w'
  hangup : (uid : ℕ) (w : World D) → Step db w (cleanup uid w)

pub data Reaches {D : Type 0} (db : Database D) (w : World D) : World D → Type 0 where
  here : Reaches db w w
  after : (v u : World D) → Reaches db w v → Step db v u → Reaches db w u

module _ {D : Type 0} (db : Database D) (F : Frame) where
  -- A relation that each request and each end of a session keeps holds for every run.
  Reaches-Same :
      ((c : Context) (type : ℕ) (payload : Bytes) → Keeps F (handle db c type payload))
      → ((uid : ℕ) (w : World D) → F.Same w.state (cleanup uid w).state)
      → (w v : World D) → Reaches db w v
      → F.Same w.state v.state
  Reaches-Same h k w _ here = F.same_refl w.state
  Reaches-Same h k w u (after v _ before step) =
      F.same_trans w.state v.state u.state (Reaches-Same h k w v before) (go step)
    where
      go : {v u : World D} → Step db v u → F.Same v.state u.state
      go (request c type payload uid v u e) =
          subst (λ r. After r (λ _ w'. F.Same v.state w'.state)) e ((h c type payload).keeps v)
      go (hangup uid v) = k uid v

cleanup-Lasts : {D : Type 0} (uid : ℕ) (w : World D) → Lasts w.state (cleanup uid w).state
unfolding cleanup
cleanup-Lasts uid w =
    let x = record w { state = set_offline uid w.state } in
    elim (Bool-cases (uid == 0)) [
      | inl nobody ↦ rw nobody (lasting.same_refl w.state)
      | inr user ↦ rw user (
          lasting.same_trans w.state x.state (notify_friends_status_change uid false x).state
            (SamePeople-Lasts w.state x.state (set_offline-SamePeople uid w.state))
            (SamePeople-Lasts x.state (notify_friends_status_change uid false x).state
              (notify_friends-SamePeople uid false x)))
    ]

module _ {D : Type 0} (db : Database D) where
  -- Friendship is mutual after any sequence of requests and ends of sessions, if it was before.
  pub Reaches-IsMutual : (w v : World D) → Reaches db w v → IsMutual w.state → IsMutual v.state
  Reaches-IsMutual = Reaches-Same db mutual_frame (handle-IsMutual db) cleanup-IsMutual

  -- After any sequence of requests and ends of sessions each account is found under its name, unchanged,
  -- and each id that was there leads to the same account, or to one that has a name which was free
  -- before.
  pub Reaches-Lasts : (w v : World D) → Reaches db w v → Lasts w.state v.state
  Reaches-Lasts = Reaches-Same db lasting (handle-Lasts db) cleanup-Lasts
