-- ===== src/Tests/Runs.antt =====
-- Runs of several requests.
use mobile_chatting_app.Common.{
  ℕ, ◌≡◌, refl, ap, ◌∙◌, insert, List, [], ◌∷◌, arith, lookup, map, take, drop, All, some, ◌*◌,
}
use mobile_chatting_app.Common.Bytes.{Bytes, codes}
use mobile_chatting_app.Server.Session.Requests.{made, outcome, serve-outcome}
use mobile_chatting_app.Wire.Packet.{Packet, Fits}
use mobile_chatting_app.Wire.Client.{create_message}
use mobile_chatting_app.Wire.Stream.Frames.{flat}
use mobile_chatting_app.Wire.Stream.Receive.{NonEmpty}
use mobile_chatting_app.Tests.Server.{hello}
use mobile_chatting_app.Server.Protocol.{heartbeat, success, direct_message, unfriend}
use mobile_chatting_app.Server.World.{World, ok, send, monad}
use mobile_chatting_app.Codec.Kv.{parse_kv, cut_at}
use mobile_chatting_app.Common.Decimal.{stoi}
use mobile_chatting_app.Server.Session.Ending.{serve-IsMutual}
use mobile_chatting_app.Server.Handlers.Friends as F
use mobile_chatting_app.Server.Handlers.Names.{is_friend}
use mobile_chatting_app.Server.Handlers.Account.{cleanup}
use mobile_chatting_app.Server.Session.{handle, handle_group, serve}
use mobile_chatting_app.Server.Friendship.{IsMutual}
use mobile_chatting_app.Server.Accounts.Lasting.{Lasts}
use mobile_chatting_app.Server.Interleaving.{
  request, hangup, Reaches, here, after, Reaches-IsMutual, Reaches-Lasts,
}
use mobile_chatting_app.Tests.Data.{counter, globals, with_db, by_ann}

-- `ann` ends the friendship with `bob`.
abbrev farewell : Bytes
farewell = codes "userId=2"

abbrev apart : World ℕ
apart = send 4 success (codes "Unfriended") 1 (record with_db { state = F.unfriend 1 2 globals })

farewell_run : handle counter by_ann unfriend farewell with_db ≡ ok 1 apart
unfolding handle handle_group monad F.handle_unfriend stoi parse_kv lookup cut_at insert
farewell_run = refl

farewell_then_hangup : Reaches counter with_db (cleanup 1 apart)
farewell_then_hangup =
    after apart (cleanup 1 apart)
      (after with_db apart here (request by_ann unfriend farewell 1 with_db apart farewell_run))
      (hangup 1 apart)

friends-IsMutual : IsMutual globals
unfolding is_friend lookup
friends-IsMutual a b = ground arith

Reaches-IsMutual_example : IsMutual (cleanup 1 apart).state
Reaches-IsMutual_example =
    Reaches-IsMutual counter with_db (cleanup 1 apart) farewell_then_hangup friends-IsMutual

Reaches-Lasts_example : Lasts globals (cleanup 1 apart).state
Reaches-Lasts_example = Reaches-Lasts counter with_db (cleanup 1 apart) farewell_then_hangup

-- The session in which `ann` sends this request, byte by byte.
abbrev farewells : List Packet
farewells = record { type = unfriend; payload = farewell; user_id = 1; ts = 1700000000 } ∷ []

farewells-Fits : All Fits farewells
farewells-Fits = ((omega arith, omega arith, omega arith), tt)

abbrev in_pieces : List Bytes
in_pieces = take 5 (flat (map made farewells)) ∷ drop 5 (flat (map made farewells)) ∷ []

in_pieces-NonEmpty : All NonEmpty in_pieces
unfolding create_message
in_pieces-NonEmpty = (λ e. cc, (λ e. cc, tt))

in_pieces-flat : flat in_pieces ≡ flat (map made farewells)
unfolding create_message
in_pieces-flat = refl

farewells_lead : outcome counter 4 (λ n. 100500) 2 farewells 1 with_db ≡ some (cleanup 1 apart)
unfolding outcome handle handle_group monad F.handle_unfriend stoi parse_kv lookup cut_at insert
farewells_lead = refl

farewells_served :
    serve counter 2 4 (λ n. 100500) 1 in_pieces with_db ≡ some (some (cleanup 1 apart))
farewells_served =
    serve-outcome counter 4 (λ n. 100500) 2 farewells in_pieces 1 with_db (omega arith)
      farewells-Fits in_pieces-NonEmpty in_pieces-flat
    ∙ ap some farewells_lead

serve-IsMutual_example : IsMutual (cleanup 1 apart).state
serve-IsMutual_example =
    serve-IsMutual counter 2 4 (λ n. 100500) 1 in_pieces with_db (cleanup 1 apart) friends-IsMutual
      farewells_served

-- A HEARTBEAT of `ann` and a message to `bob`, whose bytes arrive in two pieces.
abbrev two_requests : List Packet
two_requests =
    record { type = heartbeat; payload = []; user_id = 1; ts = 1700000000 }
    ∷ record { type = direct_message; payload = hello; user_id = 1; ts = 1700000001 }
    ∷ []

two_requests-Fits : All Fits two_requests
two_requests-Fits =
    ((omega arith, omega arith, omega arith), ((omega arith, omega arith, omega arith), tt))

abbrev in_two : List Bytes
in_two = take 40 (flat (map made two_requests)) ∷ drop 40 (flat (map made two_requests)) ∷ []

in_two-NonEmpty : All NonEmpty in_two
unfolding create_message
in_two-NonEmpty = (λ e. cc, (λ e. cc, tt))

in_two-flat : flat in_two ≡ flat (map made two_requests)
unfolding create_message
in_two-flat = refl

serve-outcome_example :
    serve counter 3 4 (λ n. n * 1000) 1 in_two with_db
    ≡ some (outcome counter 4 (λ n. n * 1000) 3 two_requests 1 with_db)
serve-outcome_example =
    serve-outcome counter 4 (λ n. n * 1000) 3 two_requests in_two 1 with_db (omega arith)
      two_requests-Fits in_two-NonEmpty in_two-flat
