-- ===== src/Common/Or.antt =====
-- `|` on the native numbers, of fields that do not overlap.
use Prim.Native.Nat.{ℕ, zero, suc, ◌+◌, ◌*◌, ◌/◌, ◌%◌, ◌^◌, ◌≤◌, ◌<◌, max, bit_or, bit_or-bitwise}
use native.Mathlib.Nat.{pow-suc}
use mathlib.Core.Path.{◌≡◌, refl, ap, ◌∙◌}
use mathlib.Core.Logic.{inl, inr}
use native.Mathlib.Omega.{arith}
use mobile_chatting_app.Common.Xor.{lowest, digit_cases, none_below}

or_lowest : (x y : ℕ) → bit_or x y ≡ max (x % 2) (y % 2) + 2 * bit_or (x / 2) (y / 2)
or_lowest zero y = simp bit_or-bitwise (omega arith)
or_lowest (suc x) y = simp bit_or-bitwise (lowest (λ d. d) max x y)

bit_or_none : (n a : ℕ) → a ≤ n → bit_or a 0 ≡ a
bit_or_none zero a h = rw (none_below a h) refl
bit_or_none (suc n) a h =
    omega (arith, or_lowest a 0, bit_or_none n (a / 2) (omega arith), low_max a)
  where
    low_max : (a : ℕ) → max (a % 2) 0 ≡ a % 2
    low_max a = elim (digit_cases a) [ inl h ↦ rw h refl | inr h ↦ rw h refl ]

pub bit_or_fields : (k q r : ℕ) → r < 2 ^ k → bit_or (q * 2 ^ k) r ≡ q * 2 ^ k + r
bit_or_fields zero q r h =
    rw (none_below r (omega arith))
      (bit_or_none (q * 2 ^ 0) (q * 2 ^ 0) (omega arith) ∙ omega arith)
bit_or_fields (suc k) q r h =
    let double : q * 2 ^ suc k ≡ 2 * (q * 2 ^ k) =
      omega (arith, ap (λ (t : ℕ). q * t) (pow-suc 2 k)) in
    let even : q * 2 ^ suc k % 2 ≡ 0 = omega (arith, double) in
    let half : q * 2 ^ suc k / 2 ≡ q * 2 ^ k = omega (arith, double) in
    let high =
      ap (λ x. bit_or x (r / 2)) half ∙ bit_or_fields k q (r / 2) (omega (arith, pow-suc 2 k)) in
    let low = ap (λ x. max x (r % 2)) even in
    omega (arith, or_lowest (q * 2 ^ suc k) r, high, low, double)
