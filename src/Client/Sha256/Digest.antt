-- ===== src/Client/Sha256/Digest.antt =====
-- The padding and the length of the digest of `CryptoUtils::sha256`
-- (app/src/main/cpp/crypto_utils.cpp).
use mobile_chatting_app.Common.{
  ℕ, zero, suc, ◌+◌, ◌-◌, ◌*◌, ◌/◌, ◌%◌, ◌^◌, ◌<◌, ◌≡◌, refl, List, [], ◌∷◌, ◌++◌, length,
  length-append, take, drop, get_or, All, arith,
}
use mobile_chatting_app.Common.Bytes.{Bytes}
use mobile_chatting_app.Client.Hex.{to_hex, setw, length-setw}
use mobile_chatting_app.Client.Sha256.{
  pad_zeros, big_endian, padded, process_chunk, process, hex_words, sha256, initial_hash,
  add_working, Working, working_of, compress, schedule, chunk_words, round_constants,
}

-- The zero bytes that are missing.
abbrev missing : Bytes → ℕ
missing p = (120 - length p % 64) % 64

-- The loop that pads ends: it has more rounds than it needs.
pad_zeros_ends : (f : ℕ) (p : Bytes) → missing p < f → length (pad_zeros f p) * 8 % 512 ≡ 448
unfolding pad_zeros
pad_zeros_ends zero p h = omega arith
pad_zeros_ends (suc f) p h =
    ground (arith, length-append p (0 ∷ []), pad_zeros_ends f (p ++ (0 ∷ [])))

length-big_endian : (n x : ℕ) → length (big_endian n x) ≡ n
unfolding big_endian
length-big_endian zero x = refl
length-big_endian (suc n) x = omega (arith, length-big_endian n x)

-- The padding always ends, and the padded message is a number of whole chunks of 64 bytes.
pub padded_whole : (message : Bytes) → length (padded message) % 64 ≡ 0
unfolding padded
padded_whole message =
    let body = pad_zeros 64 (message ++ (0x80 ∷ [])) in
    let bits = length message * 8 % 2 ^ 64 in
    omega (
      arith,
      length-append body (big_endian 8 bits),
      length-big_endian 8 bits,
      pad_zeros_ends 64 (message ++ (0x80 ∷ [])) (omega arith),
    )

-- Eight words of 32 bits.
abbrev IsState : List ℕ → Type 0
IsState hs = (length hs ≡ 8) × All (λ h. h < 2 ^ 32) hs

word_lt : (x : ℕ) → x % 2 ^ 32 < 2 ^ 32
word_lt x = omega arith

add_working-IsState : (hs : List ℕ) (v : Working) → IsState (add_working hs v)
unfolding add_working
add_working-IsState hs v = (
  refl,
  (
    word_lt (get_or hs 0 0 + v.a),
    (
      word_lt (get_or hs 1 0 + v.b),
      (
        word_lt (get_or hs 2 0 + v.c),
        (
          word_lt (get_or hs 3 0 + v.d),
          (
            word_lt (get_or hs 4 0 + v.e),
            (
              word_lt (get_or hs 5 0 + v.f),
              (word_lt (get_or hs 6 0 + v.g), (word_lt (get_or hs 7 0 + v.h), tt)),
            ),
          ),
        ),
      ),
    ),
  ),
)

process_chunk-IsState : (chunk : Bytes) (hs : List ℕ) → IsState (process_chunk chunk hs)
unfolding process_chunk
process_chunk-IsState chunk hs =
    add_working-IsState hs
      (compress round_constants (schedule 48 16 (chunk_words 16 chunk)) (working_of hs))

process-IsState : (n : ℕ) (s : Bytes) (hs : List ℕ) → IsState hs → IsState (process n s hs)
unfolding process
process-IsState zero s hs h = h
process-IsState (suc n) s hs h =
    process-IsState n (drop 64 s) (process_chunk (take 64 s) hs)
      (process_chunk-IsState (take 64 s) hs)

length-hex_words : (hs : List ℕ) → All (λ h. h < 2 ^ 32) hs → length (hex_words hs) ≡ length hs * 8
unfolding hex_words
length-hex_words [] h = refl
length-hex_words (x ∷ hs) (p, h) = omega (
  arith,
  length-append (setw 8 (to_hex x)) (hex_words hs),
  length-setw 7 x p,
  length-hex_words hs h,
)

-- The digest of any message has 64 hexadecimal places.
pub length-sha256 : (message : Bytes) → length (sha256 message) ≡ 64
unfolding sha256
length-sha256 message =
    let s = padded message in
    let (n, bounded) = process-IsState (length s * 8 / 512) s initial_hash (
      refl,
      (
        omega arith,
        (
          omega arith,
          (
            omega arith,
            (omega arith, (omega arith, (omega arith, (omega arith, (omega arith, tt))))),
          ),
        ),
      ),
    ) in
    omega (arith, n, length-hex_words (process (length s * 8 / 512) s initial_hash) bounded)
