-- ===== src/Common/Xor.antt =====
-- `^` on the native numbers: digit by digit, and its laws.
use Prim.Native.Nat.{
  ℕ, zero, suc, ◌+◌, ◌*◌, ◌/◌, ◌%◌, ◌^◌, ◌≤◌, ◌<◌, digits, bitwise, differ, bit_xor,
  bit_xor-bitwise,
}
use native.Mathlib.Nat.{le_refl, pow-suc}
use mathlib.Core.Path.{◌≡◌, refl, sym, ap, ◌∙◌}
use mathlib.Core.Logic.{◌⊎◌, inl, inr}
use native.Mathlib.Omega.{arith}

module _ (last : ℕ → ℕ) (mix : ℕ → ℕ → ℕ) where
  -- Any fuel from the number on gives its digits.
  more_fuel : (x y k l : ℕ) → x ≤ k → x ≤ l → digits last mix k x y ≡ digits last mix l x y
  more_fuel zero y zero zero p q = refl
  more_fuel zero y zero (suc l) p q = refl
  more_fuel zero y (suc k) zero p q = refl
  more_fuel zero y (suc k) (suc l) p q = refl
  more_fuel (suc x) y zero l p q = absurd (omega arith)
  more_fuel (suc x) y (suc k) zero p q = absurd (omega arith)
  more_fuel (suc x) y (suc k) (suc l) p q =
      rw (more_fuel (suc x / 2) (y / 2) k l (omega arith) (omega arith)) refl

  -- The lowest digit apart from the others.
  pub lowest :
      (x y : ℕ)
      → bitwise last mix (suc x) y
        ≡ mix (suc x % 2) (y % 2) + 2 * bitwise last mix (suc x / 2) (y / 2)
  lowest x y = omega (arith, more_fuel (suc x / 2) (y / 2) x (suc x / 2) (omega arith) (le_refl _))

differ-zero : (x : ℕ) → differ 0 x ≡ x
differ-zero x = refl

pub xor_lowest : (x y : ℕ) → bit_xor x y ≡ differ (x % 2) (y % 2) + 2 * bit_xor (x / 2) (y / 2)
xor_lowest zero y = simp bit_xor-bitwise (omega (arith, differ-zero (y % 2)))
xor_lowest (suc x) y = simp bit_xor-bitwise (lowest (λ d. d) differ x y)

pub digit_cases : (x : ℕ) → (x % 2 ≡ 0) ⊎ (x % 2 ≡ 1)
digit_cases x = omega arith

differ-digit : (a b : ℕ) → differ (a % 2) (b % 2) < 2
differ-digit a b = elim (digit_cases a) [
  | inl p ↦ rw p (omega arith)
  | inr p ↦ elim (digit_cases b) [
    | inl q ↦ rw (p, q) (omega arith)
    | inr q ↦ rw (p, q) (omega arith)
  ]
]

pub bit_xor_half : (a b : ℕ) → bit_xor a b / 2 ≡ bit_xor (a / 2) (b / 2)
bit_xor_half a b = omega (arith, xor_lowest a b, differ-digit a b)

pub bit_xor_digit : (a b : ℕ) → bit_xor a b % 2 ≡ differ (a % 2) (b % 2)
bit_xor_digit a b = omega (arith, xor_lowest a b, differ-digit a b)

-- Numbers with the same half and the same lowest digit.
same_halves : (a b : ℕ) → a / 2 ≡ b / 2 → a % 2 ≡ b % 2 → a ≡ b
same_halves a b p q = omega arith

pub zero-bit_xor : (a : ℕ) → bit_xor 0 a ≡ a
zero-bit_xor a = simp bit_xor-bitwise refl

pub none_below : (a : ℕ) → a ≤ 0 → a ≡ 0
none_below a h = omega arith

differ_comm : (x y : ℕ) → differ x y ≡ differ y x
differ_comm zero zero = refl
differ_comm zero (suc y) = refl
differ_comm (suc x) zero = refl
differ_comm (suc x) (suc y) = differ_comm x y

xor_comm_below : (n a b : ℕ) → a ≤ n → b ≤ n → bit_xor a b ≡ bit_xor b a
xor_comm_below zero a b p q = rw (none_below a p, none_below b q) refl
xor_comm_below (suc n) a b p q =
    same_halves (bit_xor a b) (bit_xor b a)
      (bit_xor_half a b
        ∙ xor_comm_below n (a / 2) (b / 2) (omega arith) (omega arith)
        ∙ sym (bit_xor_half b a))
      (bit_xor_digit a b ∙ differ_comm (a % 2) (b % 2) ∙ sym (bit_xor_digit b a))

pub bit_xor_comm : (a b : ℕ) → bit_xor a b ≡ bit_xor b a
bit_xor_comm a b = xor_comm_below (a + b) a b (omega arith) (omega arith)

differ_assoc :
    (a b c : ℕ) → differ (differ (a % 2) (b % 2)) (c % 2) ≡ differ (a % 2) (differ (b % 2) (c % 2))
differ_assoc a b c = elim (digit_cases a) [
  | inl p ↦ rw p refl
  | inr p ↦ elim (digit_cases b) [
    | inl q ↦ rw (p, q) refl
    | inr q ↦ elim (digit_cases c) [ inl r ↦ rw (p, q, r) refl | inr r ↦ rw (p, q, r) refl ]
  ]
]

xor_assoc_below :
    (n a b c : ℕ) → a ≤ n → b ≤ n → c ≤ n → bit_xor (bit_xor a b) c ≡ bit_xor a (bit_xor b c)
xor_assoc_below zero a b c p q r = rw (none_below a p, none_below b q, none_below c r) refl
xor_assoc_below (suc n) a b c p q r =
    same_halves (bit_xor (bit_xor a b) c) (bit_xor a (bit_xor b c))
      (bit_xor_half (bit_xor a b) c
        ∙ ap (λ x. bit_xor x (c / 2)) (bit_xor_half a b)
        ∙ xor_assoc_below n (a / 2) (b / 2) (c / 2) (omega arith) (omega arith) (omega arith)
        ∙ ap (bit_xor (a / 2)) (sym (bit_xor_half b c))
        ∙ sym (bit_xor_half a (bit_xor b c)))
      (bit_xor_digit (bit_xor a b) c
        ∙ ap (λ x. differ x (c % 2)) (bit_xor_digit a b)
        ∙ differ_assoc a b c
        ∙ ap (differ (a % 2)) (sym (bit_xor_digit b c))
        ∙ sym (bit_xor_digit a (bit_xor b c)))

pub bit_xor_assoc : (a b c : ℕ) → bit_xor (bit_xor a b) c ≡ bit_xor a (bit_xor b c)
bit_xor_assoc a b c = xor_assoc_below (a + b + c) a b c (omega arith) (omega arith) (omega arith)

differ_self : (x : ℕ) → differ x x ≡ 0
differ_self zero = refl
differ_self (suc x) = differ_self x

xor_self_below : (n a : ℕ) → a ≤ n → bit_xor a a ≡ 0
xor_self_below zero a p = rw (none_below a p) refl
xor_self_below (suc n) a p =
    same_halves (bit_xor a a) 0 (bit_xor_half a a ∙ xor_self_below n (a / 2) (omega arith))
      (bit_xor_digit a a ∙ differ_self (a % 2))

-- A key that is applied twice is gone.
pub bit_xor_twice : (a b : ℕ) → bit_xor (bit_xor a b) b ≡ a
bit_xor_twice a b =
    bit_xor_assoc a b b
    ∙ ap (bit_xor a) (xor_self_below b b (omega arith))
    ∙ bit_xor_comm a 0
    ∙ zero-bit_xor a

pub bit_xor_lt : (k a b : ℕ) → a < 2 ^ k → b < 2 ^ k → bit_xor a b < 2 ^ k
bit_xor_lt zero a b p q = rw (none_below a (omega arith), none_below b (omega arith)) (omega arith)
bit_xor_lt (suc k) a b p q = omega (
  arith,
  pow-suc 2 k,
  xor_lowest a b,
  differ-digit a b,
  bit_xor_lt k (a / 2) (b / 2) (omega (arith, pow-suc 2 k)) (omega (arith, pow-suc 2 k)),
)

-- The high bits of one number and the low bits of another.
pub bit_xor_fields : (k q r : ℕ) → r < 2 ^ k → bit_xor (q * 2 ^ k) r ≡ q * 2 ^ k + r
bit_xor_fields zero q r h =
    rw (none_below r (omega arith), bit_xor_comm (q * 2 ^ 0) 0, zero-bit_xor (q * 2 ^ 0))
      (omega arith)
bit_xor_fields (suc k) q r h =
    let double : q * 2 ^ suc k ≡ 2 * (q * 2 ^ k) =
      omega (arith, ap (λ (t : ℕ). q * t) (pow-suc 2 k)) in
    let half : q * 2 ^ suc k / 2 ≡ q * 2 ^ k = omega (arith, double) in
    let even : q * 2 ^ suc k % 2 ≡ 0 = omega (arith, double) in
    same_halves (bit_xor (q * 2 ^ suc k) r) (q * 2 ^ suc k + r)
      (bit_xor_half (q * 2 ^ suc k) r
        ∙ ap (λ x. bit_xor x (r / 2)) half
        ∙ bit_xor_fields k q (r / 2) (omega (arith, pow-suc 2 k))
        ∙ omega (arith, double))
      (bit_xor_digit (q * 2 ^ suc k) r
        ∙ ap (λ x. differ x (r % 2)) even
        ∙ differ-zero (r % 2)
        ∙ omega (arith, double))

pub bit_xor_swap :
    (a b c d : ℕ) → bit_xor (bit_xor a b) (bit_xor c d) ≡ bit_xor (bit_xor a c) (bit_xor b d)
bit_xor_swap a b c d =
    bit_xor_assoc a b (bit_xor c d)
    ∙ ap (bit_xor a)
        (sym (bit_xor_assoc b c d) ∙ ap (λ x. bit_xor x d) (bit_xor_comm b c) ∙ bit_xor_assoc c b d)
    ∙ sym (bit_xor_assoc a c (bit_xor b d))

-- Eight halves.
abbrev eighth : ℕ → ℕ
eighth x = x / 2 / 2 / 2 / 2 / 2 / 2 / 2 / 2

byte_halves : (x : ℕ) → x / 256 ≡ eighth x
byte_halves x = omega arith

pub bit_xor_byte : (a b : ℕ) → bit_xor a b / 256 ≡ bit_xor (a / 256) (b / 256)
bit_xor_byte a b =
    rw (byte_halves (bit_xor a b), byte_halves a, byte_halves b) (simp bit_xor_half refl)
