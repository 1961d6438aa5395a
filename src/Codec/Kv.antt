-- ===== src/Codec/Kv.antt =====
-- server-cpp/src/utils.cpp: `parse_kv` and `serialize_kv`. The client's `serialize` and
-- `deserialize` (app/src/main/cpp/message_serializer.cpp) read and write the same text.
use mobile_chatting_app.Common.{
  ℕ, List, [], ◌∷◌, ◌++◌, Option, none, some, ◌==◌, if◌then◌else◌, Map, insert,
}
use mobile_chatting_app.Common.Bytes.{Bytes, bytes_eq}

-- The current piece grows by a byte at the front.
abbrev pub push : ℕ → List Bytes → List Bytes
push c [] = (c ∷ []) ∷ []
push c (p ∷ ps) = (c ∷ p) ∷ ps

-- The lines that `while (std::getline(stream, line, sep))` yields: there is none after a
-- separator that ends the text.
unfoldable pub get_lines : ℕ → Bytes → List Bytes
get_lines sep [] = []
get_lines sep (c ∷ s) = let rest = get_lines sep s in if c == sep then [] ∷ rest else push c rest

-- `find(sep)` with the two `substr` around it; `none` is `npos`.
unfoldable pub cut_at : ℕ → Bytes → Option (Bytes × Bytes)
cut_at sep [] = none
cut_at sep (c ∷ s) =
    let rest = cut_at sep s in
    if c == sep then some ([], s) else elim rest [ none ↦ none | some (k, v) ↦ some (c ∷ k, v) ]

-- One round of the loop of `parse_kv`: a piece with no `=` is skipped.
unfoldable pub add_pair : Bytes → Map Bytes Bytes → Map Bytes Bytes
add_pair piece m = elim (cut_at b'=' piece) [ none ↦ m | some (k, v) ↦ insert k v m ]

unfoldable pub add_pairs : List Bytes → Map Bytes Bytes → Map Bytes Bytes
add_pairs [] m = m
add_pairs (p ∷ ps) m = add_pairs ps (add_pair p m)

unfoldable pub parse_kv : Bytes → Map Bytes Bytes
unfolding get_lines add_pair add_pairs
parse_kv s = add_pairs (get_lines b'&' s) []

-- The rounds after the first write `&` in front of the pair.
unfoldable pub rest_kv : List (Bytes × Bytes) → Bytes
rest_kv [] = []
rest_kv ((k, v) ∷ items) = b'&' ∷ (k ++ (b'=' ∷ (v ++ rest_kv items)))

unfoldable pub serialize_kv : List (Bytes × Bytes) → Bytes
unfolding rest_kv
serialize_kv [] = []
serialize_kv ((k, v) ∷ items) = k ++ (b'=' ∷ (v ++ rest_kv items))
