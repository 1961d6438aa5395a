-- ===== src/Codec/RoundTrip.antt =====
-- `parse_kv` reads what `serialize_kv` wrote, and what it reads when a value holds a separator.
use mobile_chatting_app.Common.{
  ◌≡◌, refl, List, [], ◌∷◌, ◌++◌, append-nil, append_assoc, arith, Map, insert, All,
}
use mobile_chatting_app.Common.Bytes.{Bytes, bytes_eq, Lacks}
use mobile_chatting_app.Codec.Kv.{get_lines, add_pair, add_pairs, parse_kv, rest_kv, serialize_kv}
use mobile_chatting_app.Codec.Pieces.{
  cut_at-append, push_all, get_lines-append, push_all-nil, Lacks-append, get_lines-separator,
}

-- A key without `=` and `&`, and a value without `&`.
abbrev pub IsPlain : Bytes × Bytes → Type 0
IsPlain (k, v) = Lacks b'=' k × Lacks b'&' k × Lacks b'&' v

-- The map that the pairs make, where a later pair of a key wins.
abbrev pub insert_all : List (Bytes × Bytes) → Map Bytes Bytes → Map Bytes Bytes
insert_all [] m = m
insert_all ((k, v) ∷ items) m = insert_all items (insert k v m)

abbrev text : Bytes × Bytes → Bytes
text (k, v) = k ++ (b'=' ∷ v)

abbrev texts : List (Bytes × Bytes) → List Bytes
texts [] = []
texts ((k, v) ∷ items) = text (k, v) ∷ texts items

text-Lacks : (k v : Bytes) → Lacks b'&' k → Lacks b'&' v → Lacks b'&' (text (k, v))
text-Lacks k v hk hv = Lacks-append b'&' k (b'=' ∷ v) hk (omega arith, hv)

push_all-text : (k v : Bytes) → push_all (text (k, v)) [] ≡ text (k, v) ∷ []
push_all-text [] v = push_all-nil b'=' v
push_all-text (c ∷ k) v = push_all-nil c (text (k, v))

get_lines-rest_kv :
    (k v : Bytes) (items : List (Bytes × Bytes))
    → IsPlain (k, v)
    → All IsPlain items
    → get_lines b'&' (k ++ (b'=' ∷ (v ++ rest_kv items))) ≡ text (k, v) ∷ texts items
unfolding rest_kv
get_lines-rest_kv k v [] h hs =
    rw
      (
        append-nil v,
        ← append-nil (text (k, v)),
        get_lines-append b'&' (text (k, v)) [] (text-Lacks k v h.1 h.2),
      )
      (unfold get_lines in rw append-nil (push_all-text k v))
get_lines-rest_kv k v ((k', v') ∷ items) h hs = rw (
  ← append_assoc k (b'=' ∷ v) (rest_kv ((k', v') ∷ items)),
  get_lines-separator b'&' (text (k, v)) (k' ++ (b'=' ∷ (v' ++ rest_kv items)))
      (text-Lacks k v h.1 h.2),
  get_lines-rest_kv k' v' items hs.0 hs.1,
)

add_pair-text :
    (k v : Bytes) (m : Map Bytes Bytes) → Lacks b'=' k → add_pair (text (k, v)) m ≡ insert k v m
unfolding add_pair
add_pair-text k v m h = rw (cut_at-append b'=' k v h, add_pair)

add_pairs-texts :
    (items : List (Bytes × Bytes)) (m : Map Bytes Bytes)
    → All IsPlain items
    → add_pairs (texts items) m ≡ insert_all items m
unfolding add_pairs
add_pairs-texts [] m h = refl
add_pairs-texts ((k, v) ∷ items) m h =
    rw (add_pair-text k v m h.0.0, add_pairs) (add_pairs-texts items (insert k v m) h.1)

-- Reading what `serialize_kv` wrote gives the pairs back as a map, where a later pair of a key
-- wins, if no key holds `=` or `&` and no value holds `&`.
pub parse_kv-serialize_kv :
    (items : List (Bytes × Bytes))
    → All IsPlain items
    → parse_kv (serialize_kv items) ≡ insert_all items []
unfolding parse_kv serialize_kv
parse_kv-serialize_kv [] h = refl
parse_kv-serialize_kv ((k, v) ∷ items) h =
    rw (get_lines-rest_kv k v items h.0 h.1) (add_pairs-texts ((k, v) ∷ items) [] h)
