-- ===== src/Client/Hex.antt =====
-- `std::hex`, `std::setw` and `std::setfill('0')` as app/src/main/cpp/crypto_utils.cpp uses them, and
-- `std::strtol` with base 16.
use mobile_chatting_app.Common.{
  ℕ, zero, suc, ◌+◌, ◌-◌, ◌*◌, ◌/◌, ◌%◌, ◌^◌, ◌≤◌, ◌<◌, ◌≡◌, ◌&&◌, [], ◌∷◌, ◌++◌, ltb, leb,
  if◌then◌else◌, length, replicate, length-append, length-replicate, arith,
}
use native.Mathlib.Nat.{pow-suc}
use mobile_chatting_app.Common.Bytes.{Bytes}

abbrev pub hex_digit : ℕ → ℕ
hex_digit d = if ltb d 10 then b'0' + d else b'a' + (d - 10)

-- The digits of `n` in front of `out`; the fuel is above the number of digits.
unfoldable hex_digits : ℕ → ℕ → Bytes → Bytes
hex_digits zero n out = out
hex_digits (suc f) n out =
    let rest = hex_digits f (n / 16) (hex_digit (n % 16) ∷ out) in
    if ltb n 16 then hex_digit n ∷ out else rest

-- `stream << std::hex << n`
unfoldable pub to_hex : ℕ → Bytes
unfolding hex_digits
to_hex n = hex_digits (suc n) n []

-- `stream << std::setw(width) << text` with the fill `0`.
unfoldable pub setw : ℕ → Bytes → Bytes
setw width text = replicate (width - length text) b'0' ++ text

-- The value of a hexadecimal digit; 16 for any other byte.
abbrev hex_value : ℕ → ℕ
hex_value c =
    if leb b'0' c && leb c b'9'
    then c - b'0'
    else if leb b'a' c && leb c b'f'
    then c - b'a' + 10
    else if leb b'A' c && leb c b'F'
    then c - b'A' + 10
    else 16

-- `std::strtol(text, nullptr, 16)` of a text with no space, sign or `0x` in front, and so short that
-- the number fits, behind the value `n` of the digits read before.
unfoldable pub strtol : Bytes → ℕ → ℕ
strtol [] n = n
strtol (c ∷ s) n =
    let rest = strtol s (n * 16 + hex_value c) in if ltb (hex_value c) 16 then rest else n

length-hex_digits :
    (f k n : ℕ) (out : Bytes) → n < 16 ^ suc k → length (hex_digits f n out) ≤ suc k + length out
unfolding hex_digits
length-hex_digits zero k n out h = omega arith
length-hex_digits (suc f) zero n out h = ground arith
length-hex_digits (suc f) (suc k) n out h = ground (
  arith,
  length-hex_digits f k (n / 16) (hex_digit (n % 16) ∷ out) (omega (arith, pow-suc 16 (suc k))),
)

pub length-setw : (k n : ℕ) → n < 16 ^ suc k → length (setw (suc k) (to_hex n)) ≡ suc k
unfolding setw to_hex
length-setw k n h = omega (
  arith,
  length-append (replicate (suc k - length (to_hex n)) b'0') (to_hex n),
  length-replicate {A = ℕ} (suc k - length (to_hex n)) b'0',
  length-hex_digits (suc n) k n [] h,
)
