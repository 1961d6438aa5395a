-- ===== src/Client/Serializer.antt =====
-- app/src/main/cpp/message_serializer.cpp: `MessageSerializer`, the pairs of a message.
pub mod Binary
pub mod Requests
pub mod Responses
pub mod Agreement
pub mod Delivery
pub mod Chat
use mobile_chatting_app.Common.{
  ℕ, Bool, true, false, ◌||◌, List, [], ◌∷◌, ◌++◌, none, some, ltb, ◌==◌, if◌then◌else◌, Map,
}
use mobile_chatting_app.Common.Bytes.{Bytes, bytes_beq}
use mobile_chatting_app.Codec.Kv.{get_lines, cut_at}

-- The order of `std::string`, byte by byte.
abbrev pub bytes_ltb : Bytes → Bytes → Bool
bytes_ltb s [] = false
bytes_ltb [] (d ∷ t) = true
bytes_ltb (c ∷ s) (d ∷ t) =
    let rest = bytes_ltb s t in if ltb c d then true else if c == d then rest else false

-- `m[k] = v` on a `std::map`, whose pairs are in the order of the keys.
unfoldable pub put : Bytes → Bytes → Map Bytes Bytes → Map Bytes Bytes
put k v [] = (k, v) ∷ []
put k v ((j, w) ∷ m) =
    if bytes_beq j k
    then (k, v) ∷ m
    else if bytes_ltb k j
    then (k, v) ∷ (j, w) ∷ m
    else (j, w) ∷ put k v m

-- The loop of `serialize`, with its flag.
unfoldable pub serialize_pairs : Bool → Map Bytes Bytes → Bytes
serialize_pairs first [] = []
serialize_pairs first ((k, v) ∷ items) =
    (if first then [] else b'&' ∷ []) ++ (k ++ (b'=' ∷ (v ++ serialize_pairs false items)))

unfoldable pub serialize : Map Bytes Bytes → Bytes
unfolding serialize_pairs
serialize pairs = serialize_pairs true pairs

-- One round of the loop of `deserialize`: a piece with no `=` is skipped.
unfoldable pub put_piece : Bytes → Map Bytes Bytes → Map Bytes Bytes
unfolding put
put_piece piece m = elim (cut_at b'=' piece) [ none ↦ m | some (k, v) ↦ put k v m ]

unfoldable pub put_pieces : List Bytes → Map Bytes Bytes → Map Bytes Bytes
unfolding put_piece
put_pieces [] m = m
put_pieces (p ∷ ps) m = put_pieces ps (put_piece p m)

unfoldable pub deserialize : Bytes → Map Bytes Bytes
unfolding put_pieces get_lines
deserialize text = put_pieces (get_lines b'&' text) []
