-- ===== src/Client/Crypto.antt =====
-- app/src/main/cpp/crypto_utils.cpp: `CryptoUtils`. The generator of random bytes is a parameter: a
-- draw of a number from 0 to 255 on a state `G`.
pub mod Cipher
use Prim.Native.Nat.{bit_and, bit_or, bit_xor}
use mobile_chatting_app.Common.{
  ℕ, zero, suc, ◌+◌, ◌-◌, ◌*◌, ◌/◌, ◌%◌, ◌^◌, Bool, ◌&&◌, List, [], ◌∷◌, ◌++◌, ltb, leb,
  if◌then◌else◌, length, take, drop, get_or, replicate,
}
use mobile_chatting_app.Common.Bytes.{Bytes}
use mobile_chatting_app.Client.Hex.{to_hex, setw, strtol}
use mobile_chatting_app.Client.Sha256.{sha256}

-- An object, with the state of the generator.
pub record CryptoUtils (G : Type 0) : Type 0 where
  pub aes_key : Bytes
  pub iv : Bytes
  pub generator : G

unfoldable pub generate_random_bytes : {G : Type 0} → (G → ℕ × G) → ℕ → G → Bytes × G
generate_random_bytes draw zero g = ([], g)
generate_random_bytes draw (suc n) g =
    let (byte, g1) = draw g in
    let (rest, g2) = generate_random_bytes draw n g1 in (byte % 256 ∷ rest, g2)

-- `v.resize(n)`
abbrev pub resize : ℕ → Bytes → Bytes
resize n v = take n v ++ replicate (n - length v) 0

-- The loop over the bytes of the key, from the byte `i` on: each is read from two digits, and stays
-- as it was where there are none.
unfoldable pub key_bytes : Bytes → ℕ → Bytes → Bytes
key_bytes hex i [] = []
key_bytes hex i (old ∷ key) =
    let byte =
      if ltb (i * 2) (length hex) then strtol (take 2 (drop (i * 2) hex)) 0 % 256 else old in
    byte ∷ key_bytes hex (i + 1) key

unfoldable pub initialize_key : {G : Type 0} → (G → ℕ × G) → Bytes → CryptoUtils G → CryptoUtils G
unfolding generate_random_bytes key_bytes sha256
initialize_key draw key s =
    let (random_bytes, g) = generate_random_bytes draw 16 s.generator in
    record {
      aes_key = key_bytes (sha256 key) 0 (resize 32 s.aes_key);
      iv = random_bytes;
      generator = g;
    }

-- The loop of both directions, from the index `i` on.
unfoldable pub xor_bytes : Bytes → Bytes → ℕ → Bytes → Bytes
xor_bytes aes_key iv i [] = []
xor_bytes aes_key iv i (c ∷ text) =
    bit_xor (bit_xor c (get_or aes_key (i % length aes_key) 0)) (get_or iv (i % length iv) 0)
    ∷ xor_bytes aes_key iv (i + 1) text

unfoldable pub encrypt_aes :
    {G : Type 0} → (G → ℕ × G) → Bytes → Bytes → CryptoUtils G → Bytes × CryptoUtils G
unfolding initialize_key xor_bytes
encrypt_aes draw text key s =
    let s1 = initialize_key draw key s in (s1.iv ++ xor_bytes s1.aes_key s1.iv 0 text, s1)

unfoldable pub decrypt_aes :
    {G : Type 0} → (G → ℕ × G) → Bytes → Bytes → CryptoUtils G → Bytes × CryptoUtils G
unfolding initialize_key xor_bytes
decrypt_aes draw encrypted key s =
    let s1 = initialize_key draw key s in
    if ltb (length encrypted) 16
    then ([], s)
    else (xor_bytes s1.aes_key (take 16 encrypted) 0 (drop 16 encrypted), s1)

unfoldable pub derive_key : Bytes → Bytes → Bytes
unfolding sha256
derive_key password salt = sha256 (password ++ salt)

-- `static_cast<uint32_t>(c)` of a `char`, whose sign is the platform's.
abbrev char_word : Bool → ℕ → ℕ
char_word is_signed c = if is_signed && leb 128 c then 2 ^ 32 - 256 + c else c

unfoldable pub md5_word : ℕ → ℕ → ℕ
md5_word c h =
    let rotated = bit_or (h * 2 ^ 3 % 2 ^ 32) (h / 2 ^ 29) in
    let mixed = bit_xor rotated c in bit_xor (mixed * 0xcc9e2d51 % 2 ^ 32) (mixed / 2 ^ 16)

unfoldable pub md5_words : ℕ → List ℕ → List ℕ
unfolding md5_word
md5_words c [] = []
md5_words c (h ∷ hash) = md5_word c h ∷ md5_words c hash

unfoldable pub md5_loop : Bool → Bytes → List ℕ → List ℕ
unfolding md5_words
md5_loop is_signed [] hash = hash
md5_loop is_signed (c ∷ text) hash =
    md5_loop is_signed text (md5_words (char_word is_signed c) hash)

-- Numbers in `width` places each.
unfoldable pub hex_numbers : ℕ → List ℕ → Bytes
hex_numbers width [] = []
hex_numbers width (n ∷ ns) = setw width (to_hex n) ++ hex_numbers width ns

unfoldable pub md5 : Bool → Bytes → Bytes
unfolding md5_loop hex_numbers
md5 is_signed text =
    hex_numbers 8 (md5_loop is_signed text (0x67452301 ∷ 0xefcdab89 ∷ 0x98badcfe ∷ 0x10325476 ∷ []))

unfoldable pub generate_salt : {G : Type 0} → (G → ℕ × G) → G → Bytes × G
unfolding generate_random_bytes hex_numbers
generate_salt draw g =
    let (salt_bytes, g1) = generate_random_bytes draw 16 g in (hex_numbers 2 salt_bytes, g1)
