-- ===== src/Server/Messaging/Faults.antt =====
-- The requests that end the server: exceptions of `std::stoi` and the null pointer in DIRECT_MESSAGE
-- and GET_CONVERSATION_HISTORY (server-cpp/src/message_handler.cpp).
use mobile_chatting_app.Common.{
  ℕ, ◌≡◌, ◌≢◌, ◌↔◌, ◌⊎◌, inl, inr, refl, true, none, some, has, Option-cases, Bool-cases, arith,
}
use mobile_chatting_app.Common.Bytes.{Bytes, codes, bytes_eq}
use mobile_chatting_app.Common.Decimal.{stoi}
use mobile_chatting_app.Codec.Kv.{parse_kv}
use mobile_chatting_app.Server.Database.{Database}
use mobile_chatting_app.Server.World.{World, ok, fault, Context, field, monad, to_int, call, ◌>>=◌}
use mobile_chatting_app.Server.Handlers.Messages.{limit_of, handle_get_conversation_history}

-- The value of the key is no number.
abbrev pub IsBad : Bytes → Bytes → Type 0
IsBad key payload = stoi (field key (parse_kv payload)) ≡ none

-- A `limit` is there and is no number.
abbrev pub HasBadLimit : Bytes → Type 0
HasBadLimit payload =
    (has (codes "limit") (parse_kv payload) ≡ true) × IsBad (codes "limit") payload

module _ {D : Type 0} (db : Database D) (c : Context) where
  limit-cases :
      (payload : Bytes) (w : World D)
      → (HasBadLimit payload × (limit_of db c (parse_kv payload) w ≡ fault))
        ⊎ ((l : ℕ) × (HasBadLimit payload → ⊥) × (limit_of db c (parse_kv payload) w ≡ ok l w))
  unfolding monad
  limit-cases payload w =
      let kv = parse_kv payload in
      elim (Bool-cases (has (codes "limit") kv)) [
        | inr default ↦ inr (
          50,
          (λ (there, bad). absurd (ground (arith, default, there))),
          rw (limit_of, default) refl,
        )
        | inl there ↦ elim (Option-cases (stoi (field (codes "limit") kv))) [
          | inl bad ↦ inl ((there, bad), rw (limit_of, there, to_int, bad) refl)
          | inr (l, e) ↦ inr (
            l,
            (λ (_, bad). absurd (ground (arith, bad, e))),
            rw (limit_of, there, to_int, e) refl,
          )
        ]
      ]

  answers :
      (payload : Bytes) (w : World D) (other limit : ℕ) (d : D)
      → stoi (field (codes "otherUserId") (parse_kv payload)) ≡ some other
      → limit_of db c (parse_kv payload) w ≡ ok limit w
      → w.db ≡ some d
      → handle_get_conversation_history db c payload w ≢ fault
  unfolding handle_get_conversation_history monad
  answers payload w other limit d e l z =
      rw (handle_get_conversation_history, ◌>>=◌, to_int, e, l, call, z) (λ f. cc)

  no_reason :
      (payload : Bytes) (w : World D) (other : ℕ) (d : D)
      → stoi (field (codes "otherUserId") (parse_kv payload)) ≡ some other
      → (HasBadLimit payload → ⊥)
      → w.db ≡ some d
      → (IsBad (codes "otherUserId") payload ⊎ (HasBadLimit payload ⊎ (w.db ≡ none)))
      → ⊥
  no_reason payload w other d e good z (inl bad) = ground (arith, bad, e)
  no_reason payload w other d e good z (inr (inl bad)) = good bad
  no_reason payload w other d e good z (inr (inr none_there)) = ground (arith, none_there, z)

  -- GET_CONVERSATION_HISTORY ends the server exactly where the other user is no number, the limit is
  -- there and is no number, or there is no database.
  pub get_conversation_history-fault :
      (payload : Bytes) (w : World D)
      → (handle_get_conversation_history db c payload w ≡ fault)
        ↔ (IsBad (codes "otherUserId") payload ⊎ (HasBadLimit payload ⊎ (w.db ≡ none)))
  unfolding handle_get_conversation_history monad
  get_conversation_history-fault payload w =
      let kv = parse_kv payload in
      elim (Option-cases (stoi (field (codes "otherUserId") kv))) [
        | inl bad ↦
            (λ _. inl bad, λ _. rw (handle_get_conversation_history, ◌>>=◌, to_int, bad) refl)
        | inr (other, e) ↦ elim (limit-cases payload w) [
          | inl (bad, l) ↦ (
            λ _. inr (inl bad),
            λ _. rw (handle_get_conversation_history, ◌>>=◌, to_int, e, l) refl,
          )
          | inr (limit, good, l) ↦ elim (Option-cases w.db) [
            | inl z ↦ (
              λ _. inr (inr z),
              λ _. rw (handle_get_conversation_history, ◌>>=◌, to_int, e, l, call, z) refl,
            )
            | inr (d, z) ↦ (
              λ f. absurd (answers payload w other limit d e l z f),
              λ h. absurd (no_reason payload w other d e good z h),
            )
          ]
        ]
      ]
