-- ===== src/Common/Decimal.antt =====
-- `std::to_string`, `std::stoi` and `std::stoul`. An `int` is its 32-bit pattern, so that the
-- conversions between `int` and `uint32_t` change nothing.
use Prim.Native.Nat.{ℕ, zero, suc, ◌+◌, ◌-◌, ◌*◌, ◌/◌, ◌%◌, ◌^◌, ◌≤◌, ◌<◌}
use mathlib.Core.Path.{◌≡◌, refl}
use mathlib.Core.Logic.{inl, inr}
use mathlib.Core.Bool.{Bool, true, false, ◌&&◌, ◌||◌}
use mathlib.Core.List.{[], ◌∷◌}
use mathlib.Core.Option.{Option, none, some}
use native.Mathlib.Omega.{arith}
use mobile_chatting_app.Common.Tests.{ltb, leb, ◌==◌, Bool-cases, if◌then◌else◌}
use mobile_chatting_app.Common.Lists.{All}
use mobile_chatting_app.Common.Bytes.{Bytes, Lacks}

-- The decimal digits of `n` in front of `out`; the fuel is above the number of digits.
digits : ℕ → ℕ → Bytes → Bytes
digits zero n out = out
digits (suc f) n out =
    let rest = digits f (n / 10) ((b'0' + n % 10) ∷ out) in
    if ltb n 10 then (b'0' + n) ∷ out else rest

-- `std::to_string` of an unsigned number.
unfoldable pub to_string : ℕ → Bytes
unfolding digits
to_string n = digits (suc n) n []

-- `std::to_string` of an `int`.
unfoldable pub to_string_int : ℕ → Bytes
unfolding to_string
to_string_int w = if ltb w (2 ^ 31) then to_string w else b'-' ∷ to_string (2 ^ 32 - w)

-- `std::to_string` of a `long long`.
unfoldable pub to_string_long : ℕ → Bytes
unfolding to_string
to_string_long w = if ltb w (2 ^ 63) then to_string w else b'-' ∷ to_string (2 ^ 64 - w)

abbrev is_digit : ℕ → Bool
is_digit c = leb b'0' c && leb c b'9'

-- The number at the start of a text, behind the value `n` of the digits read before.
scan : Bytes → ℕ → ℕ
scan [] n = n
scan (c ∷ s) n = let rest = scan s (n * 10 + (c - b'0')) in if is_digit c then rest else n

-- A conversion reads at least one digit.
read : Bytes → Option ℕ
unfolding scan
read [] = none
read (c ∷ s) = if is_digit c then some (scan (c ∷ s) 0) else none

abbrev is_space : ℕ → Bool
is_space c = c == b' ' || leb 9 c && leb c 13

unfoldable pub skip_spaces : Bytes → Bytes
skip_spaces [] = []
skip_spaces (c ∷ s) = let rest = skip_spaces s in if is_space c then rest else c ∷ s

-- The value of a text as `strtol` and `strtoul` read it: a sign and a size.
signed : Bytes → Option (Bool × ℕ)
unfolding read
signed [] = none
signed (c ∷ s) =
    if c == b'-'
    then elim (read s) [ none ↦ none | some n ↦ some (true, n) ]
    else if c == b'+'
    then elim (read s) [ none ↦ none | some n ↦ some (false, n) ]
    else elim (read (c ∷ s)) [ none ↦ none | some n ↦ some (false, n) ]

-- `std::stoi`; `none` is the exception for a text with no number or one out of range.
unfoldable pub stoi : Bytes → Option ℕ
unfolding signed skip_spaces
stoi s = elim (signed (skip_spaces s)) [
  | none ↦ none
  | some (minus, n) ↦
      if minus
      then if leb n (2 ^ 31) then some ((2 ^ 32 - n) % 2 ^ 32) else none
      else if ltb n (2 ^ 31)
      then some n
      else none
]

-- `std::stoul` on a platform with 64-bit `unsigned long`, and `std::stoull`.
unfoldable pub stoul : Bytes → Option ℕ
unfolding signed skip_spaces
stoul s = elim (signed (skip_spaces s)) [
  | none ↦ none
  | some (minus, n) ↦
      if leb (2 ^ 64) n then none else if minus then some ((2 ^ 64 - n) % 2 ^ 64) else some n
]

-- `std::stoll`; a `long long` is its 64-bit pattern.
unfoldable pub stoll : Bytes → Option ℕ
unfolding signed skip_spaces
stoll s = elim (signed (skip_spaces s)) [
  | none ↦ none
  | some (minus, n) ↦
      if minus
      then if leb n (2 ^ 63) then some ((2 ^ 64 - n) % 2 ^ 64) else none
      else if ltb n (2 ^ 63)
      then some n
      else none
]

-- Reading past the digits that `digits` writes in front of `out`.
scan-digits : (f n : ℕ) (out : Bytes) → n < f → scan (digits f n out) 0 ≡ scan out n
unfolding digits scan
scan-digits zero n out h = elim h [ ]
scan-digits (suc f) n out h = ground (arith, scan-digits f (n / 10) ((b'0' + n % 10) ∷ out))

abbrev starts_digit : Bytes → Bool
starts_digit [] = false
starts_digit (c ∷ s) = is_digit c

starts_digit-digits : (f n : ℕ) (out : Bytes) → n < f → starts_digit (digits f n out) ≡ true
unfolding digits
starts_digit-digits zero n out h = elim h [ ]
starts_digit-digits (suc f) n out h =
    ground (arith, starts_digit-digits f (n / 10) ((b'0' + n % 10) ∷ out))

signed-number :
    (s : Bytes) → starts_digit s ≡ true → signed (skip_spaces s) ≡ some (false, scan s 0)
unfolding signed skip_spaces
signed-number [] h = cc
signed-number (c ∷ s) h = ground arith

signed-negative :
    (s : Bytes) → starts_digit s ≡ true → signed (skip_spaces (b'-' ∷ s)) ≡ some (true, scan s 0)
unfolding signed skip_spaces
signed-negative [] h = cc
signed-negative (c ∷ s) h = ground arith

signed-to_string : (n : ℕ) → signed (skip_spaces (to_string n)) ≡ some (false, n)
unfolding to_string
signed-to_string n =
    rw
      (
        signed-number _ (starts_digit-digits (suc n) n [] (omega arith)),
        scan-digits (suc n) n [] (omega arith),
      )
      (unfold scan in refl)

signed-to_string_negative : (n : ℕ) → signed (skip_spaces (b'-' ∷ to_string n)) ≡ some (true, n)
unfolding to_string
signed-to_string_negative n =
    rw
      (
        signed-negative _ (starts_digit-digits (suc n) n [] (omega arith)),
        scan-digits (suc n) n [] (omega arith),
      )
      (unfold scan in refl)

-- An `int` is read back from its print.
pub stoi-to_string_int : (w : ℕ) → w < 2 ^ 32 → stoi (to_string_int w) ≡ some w
unfolding stoi to_string_int
stoi-to_string_int w h = ground (arith, signed-to_string w, signed-to_string_negative (2 ^ 32 - w))

pub stoi-to_string : (n : ℕ) → n < 2 ^ 31 → stoi (to_string n) ≡ some n
unfolding stoi
stoi-to_string n h = ground (arith, signed-to_string n)

-- An unsigned number below 2 ^ 64 is read back from its print.
pub stoul-to_string : (n : ℕ) → n < 2 ^ 64 → stoul (to_string n) ≡ some n
unfolding stoul
stoul-to_string n h = ground (arith, signed-to_string n)

pub stoul-to_string_int :
    (w : ℕ)
    → w < 2 ^ 32
    → stoul (to_string_int w) ≡ some (if ltb w (2 ^ 31) then w else 2 ^ 64 - (2 ^ 32 - w))
unfolding stoul to_string_int
stoul-to_string_int w h = ground (arith, signed-to_string w, signed-to_string_negative (2 ^ 32 - w))

-- A print has no byte below the digits, but for the sign.
digits_above :
    (f n : ℕ) (out : Bytes) → All (λ d. b'0' ≤ d) out → All (λ d. b'0' ≤ d) (digits f n out)
unfolding digits
digits_above zero n out h = h
digits_above (suc f) n out h = elim (Bool-cases (ltb n 10)) [
  | inl small ↦ rw small (omega arith, h)
  | inr large ↦ rw large (digits_above f (n / 10) ((b'0' + n % 10) ∷ out) (omega arith, h))
]

Lacks-below : (c : ℕ) (s : Bytes) → c < b'0' → All (λ d. b'0' ≤ d) s → Lacks c s
Lacks-below c [] k h = h
Lacks-below c (d ∷ s) k (h, hs) = (λ e. absurd (omega (arith, e)), Lacks-below c s k hs)

pub to_string-Lacks : (c n : ℕ) → c < b'0' → Lacks c (to_string n)
unfolding to_string
to_string-Lacks c n k = Lacks-below c (digits (suc n) n []) k (digits_above (suc n) n [] tt)

pub to_string_int-Lacks : (c w : ℕ) → c < b'-' → Lacks c (to_string_int w)
unfolding to_string_int
to_string_int-Lacks c w k = elim (Bool-cases (ltb w (2 ^ 31))) [
  | inl h ↦ rw h (to_string-Lacks c w (omega arith))
  | inr h ↦ rw h (λ e. absurd (omega (arith, e)), to_string-Lacks c (2 ^ 32 - w) (omega arith))
]
