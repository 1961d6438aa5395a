-- ===== src/Wire/Word.antt =====
-- Words in memory on a little-endian machine, and the change to and from network byte order.
use mobile_chatting_app.Common.{
  ℕ, ◌+◌, ◌*◌, ◌/◌, ◌%◌, ◌^◌, ◌<◌, ◌≡◌, [], ◌∷◌, get_or, arith, ap, ◌∙◌,
}
use mobile_chatting_app.Common.Bytes.{Bytes}

-- Byte `k` of a word.
abbrev pub byte : ℕ → ℕ → ℕ
byte x k = x / 2 ^ (8 * k) % 256

-- `memcpy(out, &x, 4)` of a `uint32_t`: the low byte first.
abbrev pub mem32 : ℕ → Bytes
mem32 x = byte x 0 ∷ byte x 1 ∷ byte x 2 ∷ byte x 3 ∷ []

-- `memcpy(&x, buf + at, 4)`
abbrev pub load32 : Bytes → ℕ → ℕ
load32 buf at =
    get_or buf at 0
    + get_or buf (at + 1) 0 * 2 ^ 8
    + get_or buf (at + 2) 0 * 2 ^ 16
    + get_or buf (at + 3) 0 * 2 ^ 24

-- `htonl` and `ntohl` reverse the four bytes.
unfoldable pub htonl : ℕ → ℕ
htonl x = byte x 3 + byte x 2 * 2 ^ 8 + byte x 1 * 2 ^ 16 + byte x 0 * 2 ^ 24

pub htonl-htonl : (x : ℕ) → x < 2 ^ 32 → htonl (htonl x) ≡ x
unfolding htonl
htonl-htonl x h = omega arith

pub htonl-lt : (x : ℕ) → htonl x < 2 ^ 32
unfolding htonl
htonl-lt x = omega arith

-- A word is read back from its four bytes.
pub mem32_sum :
    (x : ℕ) → x < 2 ^ 32 → byte x 0 + byte x 1 * 2 ^ 8 + byte x 2 * 2 ^ 16 + byte x 3 * 2 ^ 24 ≡ x
mem32_sum x h = omega arith

-- A field in network byte order, written by `htonl` and read by `ntohl`.
pub network_round_trip :
    (x : ℕ)
    → x < 2 ^ 32
    → htonl (
        byte (htonl x) 0
        + byte (htonl x) 1 * 2 ^ 8
        + byte (htonl x) 2 * 2 ^ 16
        + byte (htonl x) 3 * 2 ^ 24)
      ≡ x
network_round_trip x h = ap htonl (mem32_sum (htonl x) (htonl-lt x)) ∙ htonl-htonl x h
