-- ===== src/Client/Crypto/Cipher.antt =====
-- The cipher of `CryptoUtils` (app/src/main/cpp/crypto_utils.cpp) in both directions.
use Prim.Native.Nat.{bit_xor}
use mobile_chatting_app.Common.{
  ℕ, zero, suc, ◌+◌, ◌-◌, ◌*◌, ◌%◌, ◌≤◌, ◌≡◌, refl, sym, ap, subst, false, ◌∙◌, List, [], ◌∷◌, ◌++◌,
  length, length-append, length-replicate, take, drop, take-append_length, drop-append_length,
  get_or, replicate, ltb, arith,
}
use mobile_chatting_app.Common.Bytes.{Bytes}
use mobile_chatting_app.Common.Xor.{bit_xor_twice, bit_xor_comm, bit_xor_assoc}
use mobile_chatting_app.Client.Sha256.{sha256}
use mobile_chatting_app.Client.Sha256.Digest.{length-sha256}
use mobile_chatting_app.Client.Crypto.{
  CryptoUtils, generate_random_bytes, key_bytes, resize, initialize_key, xor_bytes, encrypt_aes,
  decrypt_aes,
}

-- Two keys that are applied in the same order twice are gone.
two_keys : (c k v : ℕ) → bit_xor (bit_xor (bit_xor (bit_xor c k) v) k) v ≡ c
two_keys c k v =
    ap (λ x. bit_xor (bit_xor x k) v)
      (bit_xor_assoc c k v ∙ ap (bit_xor c) (bit_xor_comm k v) ∙ sym (bit_xor_assoc c v k))
    ∙ ap (λ x. bit_xor x v) (bit_xor_twice (bit_xor c v) k)
    ∙ bit_xor_twice c v

xor_bytes_twice :
    (key iv : Bytes) (i : ℕ) (text : Bytes) → xor_bytes key iv i (xor_bytes key iv i text) ≡ text
unfolding xor_bytes
xor_bytes_twice key iv i [] = refl
xor_bytes_twice key iv i (c ∷ text) =
    rw
      (
        two_keys c (get_or key (i % length key) 0) (get_or iv (i % length iv) 0),
        xor_bytes_twice key iv (i + 1) text,
      )
      refl

module _ {G : Type 0} (draw : G → ℕ × G) where
  length-generate_random_bytes : (n : ℕ) (g : G) → length (generate_random_bytes draw n g).0 ≡ n
  unfolding generate_random_bytes
  length-generate_random_bytes zero g = refl
  length-generate_random_bytes (suc n) g = omega (arith, length-generate_random_bytes n (draw g).1)

-- The old key does not matter where the digits are enough for the whole key.
key_bytes_same :
    (hex : Bytes) (i : ℕ) (old other : Bytes)
    → length old ≡ length other
    → (i + length old) * 2 ≤ length hex
    → key_bytes hex i old ≡ key_bytes hex i other
unfolding key_bytes
key_bytes_same hex i [] [] p q = refl
key_bytes_same hex i [] (b ∷ other) p q = absurd (omega arith)
key_bytes_same hex i (a ∷ old) [] p q = absurd (omega arith)
key_bytes_same hex i (a ∷ old) (b ∷ other) p q =
    let rest = key_bytes_same hex (i + 1) old other (omega arith) (omega arith) in
    ground (arith, rest)

length-take : {A : Type 0} (n : ℕ) (v : List A) → length (take n v) + (n - length v) ≡ n
length-take zero v = omega arith
length-take (suc n) [] = omega arith
length-take (suc n) (x ∷ v) = omega (arith, length-take n v)

pub length-resize : (n : ℕ) (v : Bytes) → length (resize n v) ≡ n
length-resize n v = omega (
  arith,
  length-append (take n v) (replicate (n - length v) 0),
  length-replicate {A = ℕ} (n - length v) 0,
  length-take n v,
)

module _ {G : Type 0} (draw : G → ℕ × G) where
  -- Objects with the same key string have the same key afterwards.
  initialize_key_same :
      (key : Bytes) (s t : CryptoUtils G)
      → (initialize_key draw key s).aes_key ≡ (initialize_key draw key t).aes_key
  unfolding initialize_key
  initialize_key_same key s t =
      key_bytes_same (sha256 key) 0 (resize 32 s.aes_key) (resize 32 t.aes_key)
        (length-resize 32 s.aes_key ∙ sym (length-resize 32 t.aes_key))
        (omega (arith, length-resize 32 s.aes_key, length-sha256 key))

  length-iv : (key : Bytes) (s : CryptoUtils G) → length (initialize_key draw key s).iv ≡ 16
  unfolding initialize_key
  length-iv key s = length-generate_random_bytes draw 16 s.generator

  -- What one object encrypts with a key, any other object decrypts with this key, whatever the
  -- objects did before and whatever the random bytes are.
  pub decrypt_aes-encrypt_aes :
      (text key : Bytes) (s t : CryptoUtils G)
      → (decrypt_aes draw (encrypt_aes draw text key s).0 key t).0 ≡ text
  unfolding decrypt_aes encrypt_aes
  decrypt_aes-encrypt_aes text key s t =
      let iv = (initialize_key draw key s).iv in
      let aes_key = (initialize_key draw key s).aes_key in
      let body = xor_bytes aes_key iv 0 text in
      let n = length-iv key s in
      let front : take 16 (iv ++ body) ≡ iv =
        subst (λ m. take m (iv ++ body) ≡ iv) n (take-append_length iv body) in
      let back : drop 16 (iv ++ body) ≡ body =
        subst (λ m. drop m (iv ++ body) ≡ body) n (drop-append_length iv body) in
      let long : ltb (length (iv ++ body)) 16 ≡ false = ground (arith, length-append iv body, n) in
      rw (long, front, back, initialize_key_same key t s) (xor_bytes_twice aes_key iv 0 text)
