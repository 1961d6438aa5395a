-- ===== src/Tests/Wire.antt =====
-- Runs of the text formats and of the wire protocol.
use mobile_chatting_app.Common.{
  ◌^◌, ◌-◌, replicate, take, drop, ◌+◌, ◌≤◌, ◌≡◌, ◌↔◌, refl, List, [], ◌∷◌, ◌++◌, some, All, arith,
}
use mobile_chatting_app.Common.Bytes.{Bytes, codes}
use mobile_chatting_app.Common.Decimal.{
  stoi, stoul, to_string, to_string_int, stoi-to_string_int, stoul-to_string,
}
use mobile_chatting_app.Codec.Kv.{parse_kv, serialize_kv}
use mobile_chatting_app.Codec.Base64.{base64_encode}
use mobile_chatting_app.Codec.Base64.Shape.{IsSafe, base64_encode-All}
use mobile_chatting_app.Codec.RoundTrip.{IsPlain, insert_all, parse_kv-serialize_kv}
use mobile_chatting_app.Server.Protocol.{magic, version}
use mobile_chatting_app.Wire.Word.{htonl}
use mobile_chatting_app.Wire.Header.{write_header}
use mobile_chatting_app.Wire.Client.{create_message, parse_message, parsed, overread, read_fields}
use mobile_chatting_app.Wire.Client.RoundTrip.{
  swap_halves, parse_message-create_message, parse_message-write_header, parse_message-eq-overread,
}
use mobile_chatting_app.Wire.Stream.{receive_loop, total_size}
use mobile_chatting_app.Wire.Stream.Frames.{flat, IsMessage, receive_loop-flat}

stoi-to_string_int_example : stoi (to_string_int (2 ^ 32 - 5)) ≡ some (2 ^ 32 - 5)
stoi-to_string_int_example = stoi-to_string_int (2 ^ 32 - 5) (omega arith)

stoul-to_string_example : stoul (to_string 1700000000000) ≡ some 1700000000000
stoul-to_string_example = stoul-to_string 1700000000000 (omega arith)

abbrev items : List (Bytes × Bytes)
items = (codes "a", codes "x=1") ∷ (codes "b", []) ∷ []

items-IsPlain : All IsPlain items
items-IsPlain = (
  ((omega arith, tt), (omega arith, tt), (omega arith, (omega arith, (omega arith, tt)))),
  (((omega arith, tt), (omega arith, tt), tt), tt),
)

parse_kv-serialize_kv_example : parse_kv (serialize_kv items) ≡ insert_all items []
parse_kv-serialize_kv_example = parse_kv-serialize_kv items items-IsPlain

parse_message-create_message_example :
    parse_message (create_message 20 (codes "hi") 3 1700000000000)
    ≡ parsed
        (record {
          magic = magic;
          version = version;
          type = 20;
          length = 2;
          timestamp = swap_halves 1700000000000;
          user_id = 3;
          checksum = 0;
        })
        (codes "hi")
parse_message-create_message_example =
    parse_message-create_message 20 (codes "hi") 3 1700000000000 (omega arith) (omega arith)
      (omega arith)

parse_message-write_header_example :
    parse_message (write_header 20 2 3 1700000000 ++ codes "hi")
    ≡ parsed
        (record {
          magic = magic;
          version = version;
          type = 20;
          length = 2;
          timestamp = swap_halves 1700000000;
          user_id = 3;
          checksum = 0;
        })
        (codes "hi")
parse_message-write_header_example =
    parse_message-write_header 20 (codes "hi") 3 1700000000 (omega arith) (omega arith)
      (omega arith)

-- A header that announces a payload of 2 ^ 32 - 1 bytes, and no payload.
abbrev forged : Bytes
forged = 67 ∷ 72 ∷ 65 ∷ 84 ∷ 1 ∷ 20 ∷ 255 ∷ 255 ∷ 255 ∷ 255 ∷ replicate 22 0

forged_fields : ((read_fields forged).magic ≡ magic) × ((read_fields forged).version ≡ version)
unfolding read_fields htonl
forged_fields = (refl, refl)

parse_message-eq-overread_example :
    (parse_message forged ≡ overread) ↔ (2 ^ 32 ≤ 32 + (read_fields forged).length)
parse_message-eq-overread_example =
    parse_message-eq-overread forged (omega arith) (omega arith) forged_fields.0 forged_fields.1

-- Two messages of 32 and 33 bytes.
abbrev frames : List Bytes
frames =
    (67 ∷ 72 ∷ 65 ∷ 84 ∷ 1 ∷ 20 ∷ 0 ∷ 0 ∷ 0 ∷ 0 ∷ replicate 22 0)
    ∷ (67 ∷ 72 ∷ 65 ∷ 84 ∷ 1 ∷ 20 ∷ 0 ∷ 0 ∷ 0 ∷ 1 ∷ replicate 23 0)
    ∷ []

frames_valid : All IsMessage frames
unfolding total_size htonl
frames_valid = ((omega arith, refl), ((omega arith, refl), tt))

abbrev cuts : List Bytes
cuts = take 40 (flat frames) ∷ drop 40 (flat frames) ∷ []

receive_loop-flat_example : receive_loop cuts [] ≡ (frames, [])
receive_loop-flat_example = receive_loop-flat frames cuts frames_valid refl

base64_encode-All_example : All IsSafe (base64_encode (codes "a&b"))
base64_encode-All_example = base64_encode-All (codes "a&b")
