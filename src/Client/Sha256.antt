-- ===== src/Client/Sha256.antt =====
-- app/src/main/cpp/crypto_utils.cpp: `rotr` and `CryptoUtils::sha256`.
pub mod Digest
use Prim.Native.Nat.{bit_and, bit_or, bit_xor}
use mobile_chatting_app.Common.{
  ℕ, zero, suc, ◌+◌, ◌-◌, ◌*◌, ◌/◌, ◌%◌, ◌^◌, not, List, [], ◌∷◌, ◌++◌, ◌==◌, if◌then◌else◌, length,
  take, drop, get_or,
}
use mobile_chatting_app.Common.Bytes.{Bytes}
use mobile_chatting_app.Client.Hex.{to_hex, setw}

-- `a + b`, `~a` and `x >> n | x << (32 - n)` on `uint32_t`.
infixl 6 ◌+w◌
abbrev ◌+w◌ : ℕ → ℕ → ℕ
a +w b = (a + b) % 2 ^ 32

abbrev complement : ℕ → ℕ
complement a = 2 ^ 32 - 1 - a

unfoldable pub rotr : ℕ → ℕ → ℕ
rotr x n = bit_or (x / 2 ^ n) (x * 2 ^ (32 - n) % 2 ^ 32)

abbrev xor3 : ℕ → ℕ → ℕ → ℕ
xor3 a b c = bit_xor (bit_xor a b) c

abbrev pub round_constants : List ℕ
round_constants =
    0x428a2f98 ∷ 0x71374491 ∷ 0xb5c0fbcf ∷ 0xe9b5dba5 ∷ 0x3956c25b ∷ 0x59f111f1 ∷ 0x923f82a4
    ∷ 0xab1c5ed5 ∷ 0xd807aa98 ∷ 0x12835b01 ∷ 0x243185be ∷ 0x550c7dc3 ∷ 0x72be5d74 ∷ 0x80deb1fe
    ∷ 0x9bdc06a7 ∷ 0xc19bf174 ∷ 0xe49b69c1 ∷ 0xefbe4786 ∷ 0x0fc19dc6 ∷ 0x240ca1cc ∷ 0x2de92c6f
    ∷ 0x4a7484aa ∷ 0x5cb0a9dc ∷ 0x76f988da ∷ 0x983e5152 ∷ 0xa831c66d ∷ 0xb00327c8 ∷ 0xbf597fc7
    ∷ 0xc6e00bf3 ∷ 0xd5a79147 ∷ 0x06ca6351 ∷ 0x14292967 ∷ 0x27b70a85 ∷ 0x2e1b2138 ∷ 0x4d2c6dfc
    ∷ 0x53380d13 ∷ 0x650a7354 ∷ 0x766a0abb ∷ 0x81c2c92e ∷ 0x92722c85 ∷ 0xa2bfe8a1 ∷ 0xa81a664b
    ∷ 0xc24b8b70 ∷ 0xc76c51a3 ∷ 0xd192e819 ∷ 0xd6990624 ∷ 0xf40e3585 ∷ 0x106aa070 ∷ 0x19a4c116
    ∷ 0x1e376c08 ∷ 0x2748774c ∷ 0x34b0bcb5 ∷ 0x391c0cb3 ∷ 0x4ed8aa4a ∷ 0x5b9cca4f ∷ 0x682e6ff3
    ∷ 0x748f82ee ∷ 0x78a5636f ∷ 0x84c87814 ∷ 0x8cc70208 ∷ 0x90befffa ∷ 0xa4506ceb ∷ 0xbef9a3f7
    ∷ 0xc67178f2 ∷ []

abbrev pub initial_hash : List ℕ
initial_hash =
    0x6a09e667 ∷ 0xbb67ae85 ∷ 0x3c6ef372 ∷ 0xa54ff53a ∷ 0x510e527f ∷ 0x9b05688c ∷ 0x1f83d9ab
    ∷ 0x5be0cd19 ∷ []

-- The loop that appends zero bytes; 64 rounds are enough.
unfoldable pub pad_zeros : ℕ → Bytes → Bytes
pad_zeros zero padded = padded
pad_zeros (suc f) padded =
    let rest = pad_zeros f (padded ++ (0 ∷ [])) in
    if length padded * 8 % 512 == 448 then padded else rest

-- The low `n` bytes of a number, the highest first.
unfoldable pub big_endian : ℕ → ℕ → Bytes
big_endian zero x = []
big_endian (suc n) x = x / 2 ^ (n * 8) % 256 ∷ big_endian n x

unfoldable pub padded : Bytes → Bytes
unfolding pad_zeros big_endian
padded message = pad_zeros 64 (message ++ (0x80 ∷ [])) ++ big_endian 8 (length message * 8 % 2 ^ 64)

-- The words `W[0]` to `W[n - 1]` of a chunk.
unfoldable pub chunk_words : ℕ → Bytes → List ℕ
chunk_words zero chunk = []
chunk_words (suc n) chunk =
    bit_or
      (bit_or (bit_or (get_or chunk 0 0 * 2 ^ 24) (get_or chunk 1 0 * 2 ^ 16))
        (get_or chunk 2 0 * 2 ^ 8))
      (get_or chunk 3 0)
    ∷ chunk_words n (drop 4 chunk)

-- The next `n` words behind `W[0]` to `W[t - 1]`.
unfoldable pub schedule : ℕ → ℕ → List ℕ → List ℕ
unfolding rotr
schedule zero t w = w
schedule (suc n) t w =
    let x = get_or w (t - 15) 0 in
    let y = get_or w (t - 2) 0 in
    let s0 = xor3 (rotr x 7) (rotr x 18) (x / 2 ^ 3) in
    let s1 = xor3 (rotr y 17) (rotr y 19) (y / 2 ^ 10) in
    schedule n (t + 1) (w ++ ((get_or w (t - 16) 0 +w s0 +w get_or w (t - 7) 0 +w s1) ∷ []))

-- The working variables.
pub record Working : Type 0 where
  pub a : ℕ
  pub b : ℕ
  pub c : ℕ
  pub d : ℕ
  pub e : ℕ
  pub f : ℕ
  pub g : ℕ
  pub h : ℕ

-- A round of the compression with a constant and a word of the schedule.
unfoldable pub compress_round : ℕ → ℕ → Working → Working
unfolding rotr
compress_round k w v =
    let s1 = xor3 (rotr v.e 6) (rotr v.e 11) (rotr v.e 25) in
    let ch = bit_xor (bit_and v.e v.f) (bit_and (complement v.e) v.g) in
    let temp1 = v.h +w s1 +w ch +w k +w w in
    let s0 = xor3 (rotr v.a 2) (rotr v.a 13) (rotr v.a 22) in
    let maj = xor3 (bit_and v.a v.b) (bit_and v.a v.c) (bit_and v.b v.c) in
    let temp2 = s0 +w maj in
    record {
      a = temp1 +w temp2;
      b = v.a;
      c = v.b;
      d = v.c;
      e = v.d +w temp1;
      f = v.e;
      g = v.f;
      h = v.g;
    }

unfoldable pub compress : List ℕ → List ℕ → Working → Working
unfolding compress_round
compress [] ws v = v
compress (k ∷ ks) [] v = v
compress (k ∷ ks) (w ∷ ws) v = compress ks ws (compress_round k w v)

-- `H` as the working variables, and `H[i] +=` each of them.
abbrev pub working_of : List ℕ → Working
working_of hs = record {
  a = get_or hs 0 0;
  b = get_or hs 1 0;
  c = get_or hs 2 0;
  d = get_or hs 3 0;
  e = get_or hs 4 0;
  f = get_or hs 5 0;
  g = get_or hs 6 0;
  h = get_or hs 7 0;
}

unfoldable pub add_working : List ℕ → Working → List ℕ
add_working hs v =
    (get_or hs 0 0 +w v.a)
    ∷ (get_or hs 1 0 +w v.b)
    ∷ (get_or hs 2 0 +w v.c)
    ∷ (get_or hs 3 0 +w v.d)
    ∷ (get_or hs 4 0 +w v.e)
    ∷ (get_or hs 5 0 +w v.f)
    ∷ (get_or hs 6 0 +w v.g)
    ∷ (get_or hs 7 0 +w v.h)
    ∷ []

-- A chunk of 64 bytes, and `n` chunks.
unfoldable pub process_chunk : Bytes → List ℕ → List ℕ
unfolding chunk_words schedule compress add_working
process_chunk chunk hs =
    add_working hs
      (compress round_constants (schedule 48 16 (chunk_words 16 chunk)) (working_of hs))

unfoldable pub process : ℕ → Bytes → List ℕ → List ℕ
unfolding process_chunk
process zero s hs = hs
process (suc n) s hs = process n (drop 64 s) (process_chunk (take 64 s) hs)

-- Each word with eight digits.
unfoldable pub hex_words : List ℕ → Bytes
hex_words [] = []
hex_words (h ∷ hs) = setw 8 (to_hex h) ++ hex_words hs

unfoldable pub sha256 : Bytes → Bytes
unfolding process hex_words padded
sha256 message =
    hex_words (process (length (padded message) * 8 / 512) (padded message) initial_hash)
