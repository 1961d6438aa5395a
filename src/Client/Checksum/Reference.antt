-- ===== src/Client/Checksum/Reference.antt =====
-- The table of `ProtocolHandler::calculateChecksum` (app/src/main/cpp/protocol_handler.cpp) against
-- CRC-32 bit by bit.
use Prim.Native.Nat.{bit_and, bit_xor, differ, min, bit_and-bitwise}
use native.Mathlib.Nat.{pow-suc}
use mobile_chatting_app.Common.{
  ℕ, zero, suc, ◌+◌, ◌*◌, ◌/◌, ◌%◌, ◌^◌, ◌≤◌, ◌<◌, ◌≡◌, refl, sym, ap, ◌∙◌, true, inl, inr, [], ◌∷◌,
  All, get_or, ◌==◌, if◌then◌else◌, arith,
}
use mobile_chatting_app.Common.Bytes.{Bytes}
use mobile_chatting_app.Common.Below.{agree_below, agree_below_lem}
use mobile_chatting_app.Common.Xor.{
  lowest, none_below, bit_xor_half, bit_xor_digit, bit_xor_comm, bit_xor_swap, bit_xor_fields,
  bit_xor_byte, zero-bit_xor, digit_cases,
}
use mobile_chatting_app.Client.Checksum.{crc_table, crc_loop, calculate_checksum}

-- CRC-32 as it is defined: the register is shifted by one bit, and the polynomial is added where the
-- bit that falls out is set.
unfoldable pub crc_bit : ℕ → ℕ
crc_bit crc = if crc % 2 == 1 then bit_xor (crc / 2) 0xEDB88320 else crc / 2

unfoldable pub crc_bits : ℕ → ℕ → ℕ
unfolding crc_bit
crc_bits zero crc = crc
crc_bits (suc n) crc = crc_bits n (crc_bit crc)

unfoldable pub crc_bytes : ℕ → Bytes → ℕ
unfolding crc_bits
crc_bytes crc [] = crc
crc_bytes crc (c ∷ s) = crc_bytes (crc_bits 8 (bit_xor crc c)) s

-- What is added to the shifted register, by the bit that falls out.
abbrev feedback : ℕ → ℕ
feedback zero = 0
feedback (suc d) = 0xEDB88320

crc_bit_lem : (x : ℕ) → crc_bit x ≡ bit_xor (x / 2) (feedback (x % 2))
unfolding crc_bit
crc_bit_lem x = elim (digit_cases x) [
  | inl h ↦ rw h (sym (bit_xor_comm (x / 2) 0 ∙ zero-bit_xor (x / 2)))
  | inr h ↦ rw h refl
]

feedback-differ :
    (a b : ℕ) → feedback (differ (a % 2) (b % 2)) ≡ bit_xor (feedback (a % 2)) (feedback (b % 2))
feedback-differ a b = elim (digit_cases a) [
  | inl p ↦ rw p (sym (zero-bit_xor (feedback (b % 2))))
  | inr p ↦ elim (digit_cases b) [ inl q ↦ rw (p, q) refl | inr q ↦ rw (p, q) refl ]
]

-- The shift is linear.
crc_bit_xor : (a b : ℕ) → crc_bit (bit_xor a b) ≡ bit_xor (crc_bit a) (crc_bit b)
crc_bit_xor a b =
    rw
      (
        crc_bit_lem (bit_xor a b),
        crc_bit_lem a,
        crc_bit_lem b,
        bit_xor_half a b,
        bit_xor_digit a b,
        feedback-differ a b,
      )
      (bit_xor_swap (a / 2) (b / 2) (feedback (a % 2)) (feedback (b % 2)))

crc_bits_xor : (n a b : ℕ) → crc_bits n (bit_xor a b) ≡ bit_xor (crc_bits n a) (crc_bits n b)
unfolding crc_bits
crc_bits_xor zero a b = refl
crc_bits_xor (suc n) a b =
    ap (crc_bits n) (crc_bit_xor a b) ∙ crc_bits_xor n (crc_bit a) (crc_bit b)

crc_bits_shift : (n q : ℕ) → crc_bits n (q * 2 ^ n) ≡ q
unfolding crc_bits crc_bit
crc_bits_shift zero q = omega arith
crc_bits_shift (suc n) q =
    let double : q * 2 ^ suc n ≡ 2 * (q * 2 ^ n) =
      omega (arith, ap (λ (t : ℕ). q * t) (pow-suc 2 n)) in
    let even : q * 2 ^ suc n % 2 ≡ 0 = omega (arith, double) in
    let half : q * 2 ^ suc n / 2 ≡ q * 2 ^ n = omega (arith, double) in
    rw (even, half) (crc_bits_shift n q)

all_rows : agree_below (λ i. get_or crc_table i 0) (crc_bits 8) 256 ≡ true
unfolding crc_bits crc_bit
all_rows = refl

row_of_table : (i : ℕ) → i < 256 → get_or crc_table i 0 ≡ crc_bits 8 i
row_of_table i h = agree_below_lem (λ i. get_or crc_table i 0) (crc_bits 8) 256 i all_rows h

-- `a & b` digit by digit, and with a mask of low bits.
and_lowest : (x y : ℕ) → bit_and x y ≡ min (x % 2) (y % 2) + 2 * bit_and (x / 2) (y / 2)
and_lowest zero y = simp bit_and-bitwise (omega arith)
and_lowest (suc x) y = simp bit_and-bitwise (lowest (λ d. 0) min x y)

bit_and_none : (n a : ℕ) → a ≤ n → bit_and a 0 ≡ 0
bit_and_none zero a h = rw (none_below a h) refl
bit_and_none (suc n) a h = omega (arith, and_lowest a 0, bit_and_none n (a / 2) (omega arith))

low_min : (a : ℕ) → min (a % 2) 1 ≡ a % 2
low_min a = elim (digit_cases a) [ inl h ↦ rw h refl | inr h ↦ rw h refl ]

odd_mask : (m n a : ℕ) → n ≡ m * 2 + 1 → bit_and a n ≡ a % 2 + 2 * bit_and (a / 2) m
odd_mask m n a e =
    let half : n / 2 ≡ m = omega (arith, e) in
    let odd : n % 2 ≡ 1 = omega (arith, e) in and_lowest a n ∙ rw (half, odd, low_min a) refl

bit_and_byte : (a : ℕ) → bit_and a 0xFF ≡ a % 256
bit_and_byte a = omega (
  arith,
  odd_mask 127 255 a refl,
  odd_mask 63 127 (a / 2) refl,
  odd_mask 31 63 (a / 2 / 2) refl,
  odd_mask 15 31 (a / 2 / 2 / 2) refl,
  odd_mask 7 15 (a / 2 / 2 / 2 / 2) refl,
  odd_mask 3 7 (a / 2 / 2 / 2 / 2 / 2) refl,
  odd_mask 1 3 (a / 2 / 2 / 2 / 2 / 2 / 2) refl,
  odd_mask 0 1 (a / 2 / 2 / 2 / 2 / 2 / 2 / 2) refl,
  bit_and_none (a / 2 / 2 / 2 / 2 / 2 / 2 / 2 / 2) (a / 2 / 2 / 2 / 2 / 2 / 2 / 2 / 2),
)

-- A step by the table is eight steps by one bit.
table_step :
    (crc c : ℕ)
    → c < 256
    → bit_xor (crc / 2 ^ 8) (get_or crc_table (bit_and (bit_xor crc c) 0xFF) 0)
      ≡ crc_bits 8 (bit_xor crc c)
table_step crc c h =
    let x = bit_xor crc c in
    let split : bit_xor (x / 256 * 2 ^ 8) (x % 256) ≡ x =
      bit_xor_fields 8 (x / 256) (x % 256) (omega arith) ∙ omega arith in
    let no_high : c / 256 ≡ 0 = omega arith in
    let high : crc / 2 ^ 8 ≡ x / 256 = sym (
      bit_xor_byte crc c
      ∙ ap (bit_xor (crc / 256)) no_high
      ∙ bit_xor_comm (crc / 256) 0
      ∙ zero-bit_xor (crc / 256)) in
    let row : get_or crc_table (bit_and x 0xFF) 0 ≡ crc_bits 8 (x % 256) =
      ap (λ i. get_or crc_table i 0) (bit_and_byte x) ∙ row_of_table (x % 256) (omega arith) in
    ap (λ y. bit_xor y (get_or crc_table (bit_and x 0xFF) 0)) high
    ∙ ap (bit_xor (x / 256)) row
    ∙ ap (λ y. bit_xor y (crc_bits 8 (x % 256))) (sym (crc_bits_shift 8 (x / 256)))
    ∙ sym (crc_bits_xor 8 (x / 256 * 2 ^ 8) (x % 256))
    ∙ ap (crc_bits 8) split

crc_loop_lem : (crc : ℕ) (s : Bytes) → All (λ c. c < 256) s → crc_loop crc s ≡ crc_bytes crc s
unfolding crc_loop crc_bytes
crc_loop_lem crc [] h = refl
crc_loop_lem crc (c ∷ s) (h, hs) =
    ap (λ x. crc_loop x s) (table_step crc c h) ∙ crc_loop_lem (crc_bits 8 (bit_xor crc c)) s hs

-- The checksum by the table is CRC-32 as it is defined bit by bit: with the polynomial 0xEDB88320,
-- the lowest bit first, and a register that starts with ones and is complemented at the end.
pub calculate_checksum-crc_bytes :
    (bytes : Bytes)
    → All (λ c. c < 256) bytes
    → calculate_checksum bytes ≡ bit_xor (crc_bytes 0xFFFFFFFF bytes) 0xFFFFFFFF
unfolding calculate_checksum
calculate_checksum-crc_bytes bytes h =
    ap (λ x. bit_xor x 0xFFFFFFFF) (crc_loop_lem 0xFFFFFFFF bytes h)
