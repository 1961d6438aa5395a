-- ===== src/Wire/Stream/Receive.antt =====
-- What `recv_all` reads is the front of the stream, whatever the pieces.
use mobile_chatting_app.Common.{
  ℕ, zero, suc, ◌-◌, ◌≤◌, ◌<◌, ◌≡◌, ◌≢◌, refl, sym, ap, ◌∙◌, subst, Bool, true, false, ◌==◌, ltb,
  if◌then◌else◌, Option, List, [], ◌∷◌, ◌++◌, append_assoc, none, some, length, take, drop,
  take-append-drop, take-append_length, drop-append_length, length-append, All, arith, Option-cases,
  inl, inr,
}
use mobile_chatting_app.Common.Bytes.{Bytes, is_empty}
use mobile_chatting_app.Wire.Stream.{recv_all}
use mobile_chatting_app.Wire.Stream.Frames.{flat}

length-take : (n : ℕ) (s : Bytes) → n ≤ length s → length (take n s) ≡ n
length-take zero s h = refl
length-take (suc n) [] h = elim h [ ]
length-take (suc n) (c ∷ s) h = ap suc (length-take n s (omega arith))

is_empty→nil : (s : Bytes) → is_empty s ≡ true → s ≡ []
is_empty→nil [] h = refl
is_empty→nil (c ∷ s) h = cc

-- `recv_all` returns the number of bytes that was asked for; they are the front of the stream,
-- and nothing behind them is lost.
pub recv_all_sound :
    (n : ℕ) (pieces left : List Bytes) (got : Bytes)
    → recv_all n pieces ≡ some (got, left)
    → (length got ≡ n) × (flat pieces ≡ got ++ flat left)
unfolding recv_all
recv_all_sound n [] left got e = ground arith
recv_all_sound n (p ∷ ps) left got e = elim (Option-cases (recv_all (n - length p) ps)) [
  | inl none_left ↦ ground (
    arith,
    length-take n p,
    ap (λ t. t ++ flat ps) (take-append-drop n p),
    append_assoc (take n p) (drop n p) (flat ps),
  )
  | inr ((got', left'), later) ↦ ground (
    arith,
    length-take n p,
    ap (λ t. t ++ flat ps) (take-append-drop n p),
    append_assoc (take n p) (drop n p) (flat ps),
    recv_all_sound (n - length p) ps left' got' later,
    length-append p got',
    append_assoc p got' (flat left'),
  )
]

-- It succeeds where no piece is empty, that is, where the connection does not end, and as many
-- bytes arrive.
pub recv_all_total :
    (n : ℕ) (pieces : List Bytes)
    → All (λ p. p ≢ []) pieces
    → n ≤ length (flat pieces)
    → recv_all n pieces ≢ none
unfolding recv_all
recv_all_total n [] h e = ground arith
recv_all_total n (p ∷ ps) h e =
    ground (arith, recv_all_total (n - length p) ps h.1, length-append p (flat ps), is_empty→nil p)

abbrev pub NonEmpty : Bytes → Type 0
NonEmpty p = p ≢ []

-- Exactly `text` is read, and what is left begins behind it.
abbrev pub Reads : ℕ → List Bytes → Bytes → Bytes → Type 0
Reads n pieces text rest =
    (left : List Bytes) × (recv_all n pieces ≡ some (text, left))
    × (flat left ≡ rest)
    × All NonEmpty left

drop_nonempty : (n : ℕ) (p : Bytes) → n < length p → NonEmpty (drop n p)
drop_nonempty n [] h = absurd (omega arith)
drop_nonempty zero (c ∷ p) h = λ e. cc
drop_nonempty (suc n) (c ∷ p) h = drop_nonempty n p (omega arith)

abbrev Leaves : Option (Bytes × List Bytes) → Type 0
Leaves none = Unit {0}
Leaves (some (got, left)) = All NonEmpty left

Leaves-if :
    (b : Bool) (x y : Option (Bytes × List Bytes))
    → (b ≡ true → Leaves x)
    → Leaves y
    → Leaves (if b then x else y)
Leaves-if true x y h k = h refl
Leaves-if false x y h k = k

Leaves-more :
    (p : Bytes) (r : Option (Bytes × List Bytes))
    → Leaves r
    → Leaves (elim r [ none ↦ none | some (got, left) ↦ some (p ++ got, left) ])
Leaves-more p none h = tt
Leaves-more p (some (got, left)) h = h

recv_all-Leaves : (n : ℕ) (pieces : List Bytes) → All NonEmpty pieces → Leaves (recv_all n pieces)
unfolding recv_all
recv_all-Leaves n [] h = Leaves-if (n == 0) (some ([], [])) none (λ e. tt) tt
recv_all-Leaves n (p ∷ ps) (hp, hs) =
    let more = Leaves-more p (recv_all (n - length p) ps) (recv_all-Leaves (n - length p) ps hs) in
    Leaves-if (n == 0) _ _ (λ e. (hp, hs))
      (Leaves-if (is_empty p) _ _ (λ e. tt)
        (Leaves-if (ltb n (length p)) _ _ (λ e. (drop_nonempty n p (ground (arith, e)), hs)) more))

same_front :
    (got text : Bytes) (b c : Bytes)
    → length got ≡ length text
    → text ++ b ≡ got ++ c
    → (got ≡ text) × (c ≡ b)
same_front got text b c h e = (
  sym (take-append_length got c)
      ∙ ap (take (length got)) (sym e)
      ∙ ap (λ n. take n (text ++ b)) h
      ∙ take-append_length text b,
  sym (drop-append_length got c)
      ∙ ap (drop (length got)) (sym e)
      ∙ ap (λ n. drop n (text ++ b)) h
      ∙ drop-append_length text b,
)

-- Where the connection does not end, and as many bytes arrive as were asked for, `recv_all` returns
-- exactly these, however they are cut into pieces, and nothing behind them is lost.
pub recv_all_lem :
    (pieces : List Bytes) (text rest : Bytes)
    → All NonEmpty pieces
    → flat pieces ≡ text ++ rest
    → Reads (length text) pieces text rest
recv_all_lem pieces text rest h e = elim (Option-cases (recv_all (length text) pieces)) [
  | inl nothing ↦ absurd (
      recv_all_total (length text) pieces h (omega (arith, ap length e, length-append text rest))
        nothing)
  | inr ((got, left), r) ↦
      let (size, parts) = recv_all_sound (length text) pieces left got r in
      let (front, behind) = same_front got text rest (flat left) size (sym e ∙ parts) in
      (
        left,
        r ∙ ap (λ t. some (t, left)) front,
        behind,
        subst Leaves r (recv_all-Leaves (length text) pieces h),
      )
]
