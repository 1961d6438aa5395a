-- ===== src/Server/Postgres/Store/History.antt =====
-- The order of the messages that GET_CONVERSATION_HISTORY answers with a database.
use mobile_chatting_app.Common.{
  ℕ, ◌≡◌, refl, sym, ap, ◌∙◌, List, [], ◌∷◌, ◌++◌, length, length-append, some, arith,
}
use mathlib.Core.List.{reverse, reverse-reverse, reverse-cons}
use mathlib.Core.Option.{some-injective}
use mobile_chatting_app.Common.Bytes.{Bytes, codes, bytes_eq}
use mobile_chatting_app.Common.Decimal.{stoi, to_string}
use mobile_chatting_app.Codec.Kv.{parse_kv, serialize_kv}
use mobile_chatting_app.Server.Data.{Message}
use mobile_chatting_app.Server.Protocol.{success}
use mobile_chatting_app.Server.World.{World, Context, field, ok, monad}
use mobile_chatting_app.Server.Messaging.{Returns, answered}
use mobile_chatting_app.Server.Handlers.Messages.{
  conversation_items, handle_get_conversation_history, limit_of,
}
use mobile_chatting_app.Server.Postgres.{Libpq, Pg, Sql, select, pure, ◌>>=◌}
use mobile_chatting_app.Server.Postgres.Messages.{conversation_query, message_row, get_conversation}
use mobile_chatting_app.Server.Postgres.Total.{Never}
use mobile_chatting_app.Server.Postgres.Columns.Readers.{IsTyped, get_conversation-Never}
use mobile_chatting_app.Server.Postgres.Store.{postgres, run, run_lem}

length-reverse : {A : Type 0} (xs : List A) → length (reverse xs) ≡ length xs
length-reverse [] = refl
length-reverse (x ∷ xs) =
    ap length (reverse-cons x xs)
    ∙ omega (arith, length-append (reverse xs) (x ∷ []), length-reverse xs)

run-eq :
    {C A : Type 0} (m : Sql C A) (h : Never m) (s : Pg C) (r : A × Pg C)
    → m s ≡ some r
    → run m h s ≡ r
run-eq m h s r e = some-injective _ _ (sym (run_lem m h s) ∙ e)

get_conversation_reversed :
    {C R : Type 0} (pq : Libpq C R) (a b limit : ℕ) (rows : List Message) (s s' : Pg C)
    → select pq (conversation_query pq a b limit) (message_row pq) s ≡ some (rows, s')
    → get_conversation pq a b limit s ≡ some (reverse rows, s')
unfolding get_conversation pure ◌>>=◌
get_conversation_reversed pq a b limit rows s s' q = rw (◌>>=◌, q) refl

module _ {C R : Type 0} (pq : Libpq C R) (typed : IsTyped pq) (c : Context) where
  -- GET_CONVERSATION_HISTORY on a database always answers the messages in the order of its query,
  -- which is the newest first: the handler reverses what `get_conversation` has reversed.
  pub get_conversation_history-order :
      (payload : Bytes) (other limit : ℕ) (rows : List Message) (w : World (Pg C)) (s s' : Pg C)
      → stoi (field (codes "otherUserId") (parse_kv payload)) ≡ some other
      → limit_of (postgres pq typed) c (parse_kv payload) w ≡ ok limit w
      → w.db ≡ some s
      → select pq (conversation_query pq c.current_user_id other limit) (message_row pq) s
        ≡ some (rows, s')
      → Returns (handle_get_conversation_history (postgres pq typed) c payload w) (λ v w'.
        (v ≡ c.current_user_id)
        × (w'.sent
            ≡ w.sent
              ++ (answered c success (
                    serialize_kv
                      ((codes "count", to_string (length rows)) ∷ conversation_items rows 0))
                  ∷ [])))
  unfolding handle_get_conversation_history monad
  get_conversation_history-order payload other limit rows w s s' e l z q =
      let asked = get_conversation_reversed pq c.current_user_id other limit rows s s' q in
      rw
        (
          Returns,
          e,
          l,
          z,
          run-eq (get_conversation pq c.current_user_id other limit)
              (get_conversation-Never pq typed c.current_user_id other limit) s (reverse rows, s')
              asked,
          reverse-reverse rows,
          length-reverse rows,
        )
        (refl, refl)
