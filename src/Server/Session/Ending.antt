-- ===== src/Server/Session/Ending.antt =====
-- What holds when a session has ended.
use mobile_chatting_app.Common.{
  ℕ, ◌/◌, zero, suc, ◌≡◌, false, ◌||◌, not, ◌==◌, if◌then◌else◌, List, nat_eq, Option, none, some,
  Option-cases, Bool-cases, inl, inr, arith, subst,
}
use mobile_chatting_app.Common.Bytes.{Bytes}
use mobile_chatting_app.Wire.Header.{Header, read_header}
use mobile_chatting_app.Wire.Stream.{recv_all}
use mobile_chatting_app.Server.Protocol.{magic, version, logout, header_size}
use mobile_chatting_app.Server.Database.{Database}
use mobile_chatting_app.Server.World.{World, Result, ok, fault, Context}
use mobile_chatting_app.Server.Frame.{After}
use mobile_chatting_app.Server.Friendship.{IsMutual, handle-IsMutual, SamePeople-IsMutual}
use mobile_chatting_app.Server.People.{notify_friends-SamePeople}
use mobile_chatting_app.Server.People.Requests.{set_offline-SamePeople}
use mobile_chatting_app.Server.Handlers.Account.{cleanup, set_offline}
use mobile_chatting_app.Server.Session.{
  Round, next, stop, crash, handle, read_request, answer, round, serve,
}

-- The state that a round leaves, where it does not end the process.
abbrev RoundMutual : {D : Type 0} → Round D → Type 0
RoundMutual (next uid input w) = IsMutual w.state
RoundMutual (stop uid w) = IsMutual w.state
RoundMutual crash = Unit {0}

module _ {D : Type 0} (db : Database D) where
  answer-IsMutual :
      (fd millis uid : ℕ) (h : Header) (payload : Bytes) (input : List Bytes) (w : World D)
      → IsMutual w.state
      → RoundMutual (answer db fd millis uid h payload input w)
  unfolding answer
  answer-IsMutual fd millis uid h payload input w m =
      let c : Context = record {
        fd = fd;
        current_user_id = uid;
        requester_id = if h.sender_user_id == 0 then uid else h.sender_user_id;
        seconds = millis / 1000;
        millis = millis;
      } in
      go (handle db c h.type payload w) ((handle-IsMutual db c h.type payload).keeps w)
    where
      go :
          (r : Result D ℕ)
          → After r (λ _ w'. IsMutual w.state → IsMutual w'.state)
          → RoundMutual (elim r [
            | fault ↦ crash
            | ok uid' w' ↦ if h.type == logout then stop uid' w' else next uid' input w'
          ])
      go fault k = tt
      go (ok uid' w') k = elim (Bool-cases (h.type == logout)) [
        | inl e ↦ rw e (k m)
        | inr e ↦ rw e (k m)
      ]

  round-IsMutual :
      (fd millis uid : ℕ) (input : List Bytes) (w : World D)
      → IsMutual w.state
      → RoundMutual (round db fd millis uid input w)
  unfolding round
  round-IsMutual fd millis uid input w m = elim (Option-cases (recv_all header_size input)) [
    | inl closed ↦ rw (closed, round) m
    | inr ((buf, rest), got) ↦
        let h = read_header buf in
        elim (Bool-cases (not (h.magic == magic) || not (h.version == version))) [
          | inl bad ↦ rw (got, round, bad) m
          | inr good ↦ elim (Option-cases (read_request db h rest)) [
            | inl cut ↦ rw (got, round, good, cut) m
            | inr ((payload, rest'), more) ↦
                rw (got, round, good, more) (answer-IsMutual fd millis uid h payload rest' w m)
          ]
        ]
  ]

pub cleanup-IsMutual :
    {D : Type 0} (uid : ℕ) (w : World D) → IsMutual w.state → IsMutual (cleanup uid w).state
unfolding cleanup
cleanup-IsMutual uid w m = elim (Bool-cases (uid == 0)) [
  | inl nobody ↦ rw nobody m
  | inr user ↦ rw user (
      SamePeople-IsMutual _ _
        (notify_friends-SamePeople uid false (record w { state = set_offline uid w.state }))
        (SamePeople-IsMutual _ _ (set_offline-SamePeople uid w.state) m))
]

ended : {A : Type 0} (a b : A) → ◌≡◌ {A = Option (Option A)} (some (some a)) (some (some b)) → a ≡ b
ended a b e = cc

-- Friendship is mutual after a whole session, whatever the client sends, if it was before.
pub serve-IsMutual :
    {D : Type 0} (db : Database D) (fuel fd : ℕ) (millis : ℕ → ℕ) (uid : ℕ) (input : List Bytes)
    (w w' : World D)
    → IsMutual w.state
    → serve db fuel fd millis uid input w ≡ some (some w')
    → IsMutual w'.state
serve-IsMutual {D = D} db zero fd millis uid input w w' m e = unfold serve in ground arith
serve-IsMutual {D = D} db (suc fuel) fd millis uid input w w' m e =
    step (round db fd (millis fuel) uid input w) (round-IsMutual db fd (millis fuel) uid input w m)
      (serve-IsMutual db fuel fd millis) (unfold serve in e)
  where
    step :
        (r : Round D)
        → RoundMutual r
        → ((uid : ℕ) (input : List Bytes) (w w' : World D)
            → IsMutual w.state
            → serve db fuel fd millis uid input w ≡ some (some w')
            → IsMutual w'.state)
        → (elim r [
          | crash ↦ some none
          | stop uid' w' ↦ some (some (cleanup uid' w'))
          | next uid' input' w' ↦ serve db fuel fd millis uid' input' w'
        ])
          ≡ some (some w')
        → IsMutual w'.state
    step crash k ih e = cc
    step (stop uid' v) k ih e =
        subst (λ (x : World D). IsMutual x.state) (ended (cleanup uid' v) w' e)
          (cleanup-IsMutual uid' v k)
    step (next uid' input' v) k ih e = ih uid' input' v w' k e
