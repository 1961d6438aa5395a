-- ===== src/Tests/Postgres.antt =====
-- A libpq that answers every statement with one row, and runs of the database on it.
use mobile_chatting_app.Common.{
  ℕ, suc, ◌≡◌, ◌≢◌, refl, true, false, [], ◌∷◌, none, some, ◌++◌, ◌⊎◌, lookup, insert,
}
use mobile_chatting_app.Common.Bytes.{Bytes, codes}
use mobile_chatting_app.Common.Decimal.{stoi, stoll}
use mobile_chatting_app.Server.Postgres.{
  Libpq, Pg, pure, ◌>>=◌, text_at, int_at, long_at, bool_at, each_row, select, execute,
  is_connected,
}
use mobile_chatting_app.Server.Postgres.Messages.{message_row}
use mobile_chatting_app.Server.Postgres.Columns.Readers.{IsTyped}
use mobile_chatting_app.Server.Postgres.Store.{postgres}
use mobile_chatting_app.Server.Postgres.Store.History.{get_conversation_history-order}
use mobile_chatting_app.Server.Postgres.Yields.{Yields}
use mobile_chatting_app.Server.Postgres.Transactions.{tx, IsClosed, accept_friend_request-IsClosed}
use mobile_chatting_app.Server.Postgres.Friends.{accept_friend_request}
use mobile_chatting_app.Common.Decimal.{to_string, to_string_int}
use mobile_chatting_app.Codec.Kv.{parse_kv, serialize_kv, cut_at, add_pair, add_pairs, get_lines}
use mobile_chatting_app.Server.Data.{Message}
use mobile_chatting_app.Server.Protocol.{success}
use mobile_chatting_app.Server.World.{World, to_int}
use mobile_chatting_app.Server.Messaging.{Returns, answered}
use mobile_chatting_app.Server.Handlers.Messages.{
  conversation_items, handle_get_conversation_history,
}
use mobile_chatting_app.Server.Postgres.Messages.{conversation_query, between}
use mobile_chatting_app.Tests.Data.{globals, by_ann}

-- The state counts the statements; a result is the one cell of the row.
abbrev one_row : Libpq ℕ Bytes
one_row = record {
  connectdb = λ info n. n;
  status_ok = λ n. true;
  finish = λ n. n;
  exec = λ query n. (codes "1", suc n);
  exec_params = λ query values n. (codes "1", suc n);
  succeeded = λ r. true;
  ntuples = λ r. 1;
  getvalue = λ r i j. some (codes "1");
  getisnull = λ r i j. false;
  escape = λ s n. s;
  indeterminate = 0;
}

reads_one : stoi (codes "1") ≢ none
unfolding stoi
reads_one e = cc

reads_long_one : stoll (codes "1") ≢ none
unfolding stoll
reads_long_one e = cc

there : some (codes "1") ≢ none
there e = cc

one_row-IsTyped : IsTyped one_row
one_row-IsTyped = record {
  new_users = λ name password phone c e. (reads_one, tt);
  new_groups = λ name owner c e. (reads_one, tt);
  requests = λ u c i e h. (reads_one, (reads_one, (reads_one, (there, (reads_long_one, tt)))));
  messages = λ a b limit c i e h.
      (reads_one, (reads_one, (reads_one, (there, (reads_long_one, (there, tt))))));
  nicknames = λ g c i e h. (reads_one, (there, tt));
  admins = λ g u c i e h. (there, tt);
  groups = λ u c i e h. (reads_one, (there, (reads_one, tt)));
  members =
      λ g c i e h. (reads_one, (there, (there, (there, (there, ((λ _. reads_long_one), tt))))));
  invites = λ u c i e h.
      (reads_one, (reads_one, (reads_one, (reads_one, (there, (reads_long_one, tt))))));
  group_messages =
      λ g limit c i e h. (reads_one, (reads_one, (reads_one, (there, (reads_long_one, tt)))));
}

-- An open connection, and a server on it.
abbrev session : Pg ℕ
session = record { is_open = true; lib = 0; connection_string = []; executed = [] }

abbrev served : World (Pg ℕ)
served = record {
  state = globals;
  db = some session;
  users_file = none;
  file_opens = true;
  sent = [];
  activities = [];
}

accept_friend_request-IsClosed_example :
    Yields
      (accept_friend_request one_row 1 2 session)
      (λ done t. IsClosed true false done t ⊎ ((done ≡ false) × (tx t ≡ tx session)))
accept_friend_request-IsClosed_example =
    accept_friend_request-IsClosed one_row (λ c. refl) (λ c. refl) 1 2 session refl

-- The message of the row, and the state after the query.
abbrev the_row : Message
the_row = record {
  id = 1;
  from_user_id = 1;
  to_user_id = 1;
  content = codes "1";
  timestamp = 1;
  is_read = false;
}

abbrev asked : Pg ℕ
asked = record session { lib = 1; executed = (conversation_query one_row 1 2 50, true) ∷ [] }

abbrev history_request : Bytes
history_request = codes "otherUserId=2&limit=50"

get_conversation_history-order_example :
    Returns
      (handle_get_conversation_history
        (postgres one_row one_row-IsTyped)
        by_ann
        history_request
        served)
      (λ v w.
        (v ≡ 1)
        × (w.sent
            ≡ served.sent
              ++ (answered by_ann success (
                    serialize_kv
                      ((codes "count", to_string 1) ∷ conversation_items (the_row ∷ []) 0))
                  ∷ [])))
unfolding stoi stoll lookup parse_kv cut_at insert to_int select ◌>>=◌ execute is_connected each_row
    message_row int_at text_at pure long_at add_pair add_pairs get_lines bool_at conversation_query
    between to_string_int
get_conversation_history-order_example =
    get_conversation_history-order one_row one_row-IsTyped by_ann history_request 2 50
      (the_row ∷ []) served session asked refl refl refl refl
