-- ===== src/Client/Native/Secrets.antt =====
-- `nativeEncrypt` and `nativeDecrypt` (app/src/main/cpp/native-lib.cpp) as the Kotlin code sees them.
use Prim.Native.Nat.{bit_xor}
use mobile_chatting_app.Common.{
  ℕ, zero, suc, ◌+◌, ◌*◌, ◌%◌, ◌≤◌, true, take, drop, if◌then◌else◌, ◌<◌, ◌≡◌, refl, ap, ◌∙◌, [],
  ◌∷◌, ◌++◌, some, get_or, length, All, arith, Bool, ltb,
}
use mobile_chatting_app.Common.Bytes.{Bytes, Lacks, c_str-eq}
use mobile_chatting_app.Common.Xor.{bit_xor_lt}
use mobile_chatting_app.Client.Crypto.{
  CryptoUtils, generate_random_bytes, initialize_key, key_bytes, resize, xor_bytes, encrypt_aes,
  decrypt_aes, hex_numbers,
}
use mobile_chatting_app.Client.Sha256.{sha256}
use mobile_chatting_app.Client.Hex.{strtol}
use mobile_chatting_app.Client.Sha256.Digest.{length-sha256}
use mobile_chatting_app.Client.Crypto.Cipher.{length-resize, decrypt_aes-encrypt_aes}
use mobile_chatting_app.Client.Socket.{Net}
use mobile_chatting_app.Client.Native.{
  Globals, Jstring, jstring_to_string, string_to_jstring, bytes_of_hex, native_encrypt,
  native_decrypt,
}
use mobile_chatting_app.Client.Native.Hexadecimal.{
  bytes_of_hex-hex_numbers, hex_numbers-Lacks, hex_numbers-is_modified_utf8,
}
use mobile_chatting_app.Client.Native.Strings.{is_modified_utf8, IsNewString}

abbrev IsByte : ℕ → Type 0
IsByte b = b < 256

get_or-IsByte : (bs : Bytes) (i : ℕ) → All IsByte bs → IsByte (get_or bs i 0)
get_or-IsByte [] i h = omega arith
get_or-IsByte (b ∷ bs) zero (h, hs) = h
get_or-IsByte (b ∷ bs) (suc i) (h, hs) = get_or-IsByte bs i hs

xor_bytes-All :
    (key iv : Bytes) (i : ℕ) (text : Bytes)
    → All IsByte key
    → All IsByte iv
    → All IsByte text
    → All IsByte (xor_bytes key iv i text)
unfolding xor_bytes
xor_bytes-All key iv i [] hk hv h = tt
xor_bytes-All key iv i (c ∷ text) hk hv (h, hs) = (
  bit_xor_lt 8 (bit_xor c (get_or key (i % length key) 0)) (get_or iv (i % length iv) 0)
      (bit_xor_lt 8 c (get_or key (i % length key) 0) h (get_or-IsByte key (i % length key) hk))
      (get_or-IsByte iv (i % length iv) hv),
  xor_bytes-All key iv (i + 1) text hk hv hs,
)

key_bytes-All :
    (hex : Bytes) (i : ℕ) (old : Bytes)
    → (i + length old) * 2 ≤ length hex
    → All IsByte (key_bytes hex i old)
unfolding key_bytes
key_bytes-All hex i [] h = tt
key_bytes-All hex i (b ∷ old) h = (
  byte_read (strtol (take 2 (drop (i * 2) hex)) 0) (ltb (i * 2) (length hex)) b (ground (arith, h)),
  key_bytes-All hex (i + 1) old (omega (arith, h)),
)
  where
    byte_read :
        (x : ℕ) (there : Bool) (old : ℕ) → there ≡ true → IsByte (if there then x % 256 else old)
    byte_read x there old h = ground (arith, h)

module _ {G : Type 0} (draw : G → ℕ × G) where
  random-All : (n : ℕ) (g : G) → All IsByte (generate_random_bytes draw n g).0
  unfolding generate_random_bytes
  random-All zero g = tt
  random-All (suc n) g = (omega arith, random-All n (draw g).1)

  encrypt_aes-All :
      (text key : Bytes) (u : CryptoUtils G)
      → All IsByte text
      → All IsByte (encrypt_aes draw text key u).0
  unfolding encrypt_aes initialize_key
  encrypt_aes-All text key u h =
      let iv = (generate_random_bytes draw 16 u.generator).0 in
      let aes_key = key_bytes (sha256 key) 0 (resize 32 u.aes_key) in
      All-append iv (xor_bytes aes_key iv 0 text) (random-All 16 u.generator) (
        xor_bytes-All aes_key iv 0 text
          (key_bytes-All (sha256 key) 0 (resize 32 u.aes_key)
            (omega (arith, length-resize 32 u.aes_key, length-sha256 key)))
          (random-All 16 u.generator) h)
    where
      All-append : (s t : Bytes) → All IsByte s → All IsByte t → All IsByte (s ++ t)
      All-append [] t hs ht = ht
      All-append (b ∷ s) t (h, hs) ht = (h, All-append s t hs ht)

module _ {G S : Type 0} (draw : G → ℕ × G) (sys : Net S) (new_string_utf : Bytes → Jstring)
    (new_string : IsNewString new_string_utf) where
  -- A text that is modified UTF-8 and holds no zero becomes the string that it writes.
  string_to_jstring-some :
      (s : Bytes)
      → Lacks 0 s
      → is_modified_utf8 s ≡ true
      → string_to_jstring new_string_utf s ≡ some s
  unfolding string_to_jstring
  string_to_jstring-some s h m = rw (c_str-eq s h) (new_string s m)

  encrypted_hex :
      (text : Bytes) (key : Jstring) (n : Globals G S) (u : CryptoUtils G)
      → n.crypto_utils ≡ some u
      → Lacks 0 text
      → (native_encrypt draw sys new_string_utf (some text) key n).0
        ≡ string_to_jstring new_string_utf
            (hex_numbers 2 (encrypt_aes draw text (jstring_to_string key) u).0)
  unfolding native_encrypt jstring_to_string
  encrypted_hex text key n u e h = rw (native_encrypt, e, jstring_to_string, c_str-eq text h) refl

  decrypted_text :
      (hex : Bytes) (key : Jstring) (m : Globals G S) (v : CryptoUtils G)
      → m.crypto_utils ≡ some v
      → Lacks 0 hex
      → (native_decrypt draw sys new_string_utf (some hex) key m).0
        ≡ string_to_jstring new_string_utf
            (decrypt_aes draw (bytes_of_hex hex) (jstring_to_string key) v).0
  unfolding native_decrypt jstring_to_string
  decrypted_text hex key m v e h = rw (native_decrypt, e, jstring_to_string, c_str-eq hex h) refl

  -- What is encrypted with a key comes back when it is decrypted with this key, whatever the two
  -- objects did before and whatever the random bytes are, if the text is modified UTF-8 without a
  -- zero byte, and if `NewStringUTF` makes the string that such bytes write.
  pub native_decrypt-native_encrypt :
      (text : Bytes) (key : Jstring) (n m : Globals G S) (u v : CryptoUtils G)
      → n.crypto_utils ≡ some u
      → m.crypto_utils ≡ some v
      → Lacks 0 text
      → All (λ b. b < 256) text
      → is_modified_utf8 text ≡ true
      → (native_decrypt draw sys new_string_utf
          (native_encrypt draw sys new_string_utf (some text) key n).0
          key
          m).0
        ≡ some text
  native_decrypt-native_encrypt text key n m u v e f h k i =
      let k0 = jstring_to_string key in
      let secret = (encrypt_aes draw text k0 u).0 in
      let bytes = encrypt_aes-All draw text k0 u k in
      let hex = hex_numbers 2 secret in
      ap (λ j. (native_decrypt draw sys new_string_utf j key m).0)
        (encrypted_hex text key n u e h
          ∙ string_to_jstring-some hex (hex_numbers-Lacks secret bytes)
              (hex_numbers-is_modified_utf8 secret bytes))
      ∙ decrypted_text hex key m v f (hex_numbers-Lacks secret bytes)
      ∙ ap (λ t. string_to_jstring new_string_utf (decrypt_aes draw t k0 v).0)
          (bytes_of_hex-hex_numbers secret bytes)
      ∙ ap (string_to_jstring new_string_utf) (decrypt_aes-encrypt_aes draw text k0 u v)
      ∙ string_to_jstring-some text h i
