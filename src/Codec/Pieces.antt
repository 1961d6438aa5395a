-- ===== src/Codec/Pieces.antt =====
-- The lines and the parts of a text at a separator (`std::getline` and `find` with `substr`).
use mobile_chatting_app.Common.{
  ℕ, ◌≡◌, refl, ap, List, [], ◌∷◌, ◌++◌, append-nil, none, some, arith, ==_refl,
}
use mobile_chatting_app.Common.Bytes.{Bytes, Lacks}
use mobile_chatting_app.Codec.Kv.{push, get_lines, cut_at}

pub cut_at-append :
    (sep : ℕ) (k v : Bytes) → Lacks sep k → cut_at sep (k ++ (sep ∷ v)) ≡ some (k, v)
unfolding cut_at
cut_at-append sep [] v h = ground arith
cut_at-append sep (c ∷ k) v h = ground (arith, cut_at-append sep k v)

pub cut_at-none : (sep : ℕ) (s : Bytes) → Lacks sep s → cut_at sep s ≡ none
unfolding cut_at
cut_at-none sep [] h = refl
cut_at-none sep (c ∷ s) h = ground (arith, cut_at-none sep s)

-- A piece without the separator goes to the front of the lines.
abbrev pub push_all : Bytes → List Bytes → List Bytes
push_all [] ls = ls
push_all (c ∷ p) ls = push c (push_all p ls)

pub get_lines-append :
    (sep : ℕ) (p s : Bytes) → Lacks sep p → get_lines sep (p ++ s) ≡ push_all p (get_lines sep s)
unfolding get_lines
get_lines-append sep [] s h = refl
get_lines-append sep (c ∷ p) s h = ground (arith, get_lines-append sep p s)

push_all-cons : (p q : Bytes) (ls : List Bytes) → push_all p (q ∷ ls) ≡ (p ++ q) ∷ ls
push_all-cons [] q ls = refl
push_all-cons (c ∷ p) q ls = rw (push_all-cons p q ls)

pub push_all-nil : (c : ℕ) (p : Bytes) → push_all (c ∷ p) [] ≡ (c ∷ p) ∷ []
push_all-nil c [] = refl
push_all-nil c (d ∷ p) = ap (push c) (push_all-nil d p)

pub Lacks-append : (c : ℕ) (s t : Bytes) → Lacks c s → Lacks c t → Lacks c (s ++ t)
Lacks-append c [] t hs ht = ht
Lacks-append c (d ∷ s) t hs ht = (hs.0, Lacks-append c s t hs.1 ht)

get_lines-head : (sep : ℕ) (s : Bytes) → get_lines sep (sep ∷ s) ≡ [] ∷ get_lines sep s
unfolding get_lines
get_lines-head sep s = rw (==_refl sep) refl

pub get_lines-separator :
    (sep : ℕ) (p s : Bytes) → Lacks sep p → get_lines sep (p ++ (sep ∷ s)) ≡ p ∷ get_lines sep s
get_lines-separator sep p s h =
    rw
      (
        get_lines-append sep p (sep ∷ s) h,
        get_lines-head sep s,
        push_all-cons p [] (get_lines sep s),
        append-nil p,
      )
      refl
