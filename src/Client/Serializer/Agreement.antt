-- ===== src/Client/Serializer/Agreement.antt =====
-- The client's `serialize` and `deserialize` (app/src/main/cpp/message_serializer.cpp) against the
-- server's `serialize_kv` and `parse_kv` (server-cpp/src/utils.cpp).
use mobile_chatting_app.Common.{
  ◌≡◌, refl, sym, ap, ◌∙◌, false, inl, inr, List, [], ◌∷◌, some, if◌then◌else◌, Map, lookup, insert,
  lookup-insert, Option-cases, arith,
}
use mobile_chatting_app.Common.Bytes.{Bytes, bytes_beq, bytes_beq_iff, bytes_eq}
use mobile_chatting_app.Codec.Kv.{
  get_lines, cut_at, add_pair, add_pairs, parse_kv, rest_kv, serialize_kv,
}
use mobile_chatting_app.Client.Serializer.{
  put, serialize_pairs, serialize, put_piece, put_pieces, deserialize,
}

lookup-put :
    (k j v : Bytes) (m : Map Bytes Bytes)
    → lookup j (put k v m) ≡ (if bytes_beq k j then some v else lookup j m)
unfolding lookup put
lookup-put k j v [] = refl
lookup-put k j v ((i, w) ∷ m) =
    ground (arith, bytes_beq_iff k j, bytes_beq_iff i k, bytes_beq_iff i j, lookup-put k j v m)

-- The maps hold the same pairs.
abbrev Same : Map Bytes Bytes → Map Bytes Bytes → Type 0
Same m n = (j : Bytes) → lookup j m ≡ lookup j n

put-Same : (k v : Bytes) (m n : Map Bytes Bytes) → Same m n → Same (put k v m) (insert k v n)
put-Same k v m n h j =
    lookup-put k j v m
    ∙ ap (λ o. if bytes_beq k j then some v else o) (h j)
    ∙ sym (lookup-insert k j v n)

put_piece-Same :
    (p : Bytes) (m n : Map Bytes Bytes) → Same m n → Same (put_piece p m) (add_pair p n)
unfolding put_piece add_pair
put_piece-Same p m n h = elim (Option-cases (cut_at b'=' p)) [
  | inl e ↦ rw (put_piece, add_pair, e) h
  | inr ((k, v), e) ↦ rw (put_piece, add_pair, e) (put-Same k v m n h)
]

put_pieces-Same :
    (ps : List Bytes) (m n : Map Bytes Bytes) → Same m n → Same (put_pieces ps m) (add_pairs ps n)
unfolding put_pieces add_pairs
put_pieces-Same [] m n h = h
put_pieces-Same (p ∷ ps) m n h =
    put_pieces-Same ps (put_piece p m) (add_pair p n) (put_piece-Same p m n h)

-- The client and the server read the same value for each key, whatever the text.
pub lookup-deserialize :
    (text key : Bytes) → lookup key (deserialize text) ≡ lookup key (parse_kv text)
unfolding deserialize parse_kv
lookup-deserialize text key = put_pieces-Same (get_lines b'&' text) [] [] (λ j. refl) key

serialize_rest : (items : List (Bytes × Bytes)) → serialize_pairs false items ≡ rest_kv items
unfolding serialize_pairs rest_kv
serialize_rest [] = refl
serialize_rest ((k, v) ∷ items) = rw (serialize_rest items) refl

-- The client and the server write the same text for the same pairs.
pub serialize-serialize_kv : (pairs : List (Bytes × Bytes)) → serialize pairs ≡ serialize_kv pairs
unfolding serialize serialize_pairs serialize_kv
serialize-serialize_kv [] = refl
serialize-serialize_kv ((k, v) ∷ items) = rw (serialize_rest items) refl
