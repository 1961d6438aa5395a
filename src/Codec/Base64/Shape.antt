-- ===== src/Codec/Base64/Shape.antt =====
-- The length and the bytes of what `base64_encode` writes (server-cpp/src/utils.cpp).
use mobile_chatting_app.Common.{
  ℕ, zero, suc, ◌+◌, ◌-◌, ◌*◌, ◌/◌, ◌%◌, ◌≡◌, ◌≢◌, refl, ◌∙◌, [], ◌∷◌, ◌++◌, length, length-append,
  length-replicate, get_or, replicate, All, arith, Bool, true, not, ◌&&◌, ◌==◌, leb, ltb,
  Bool-cases, inl, inr, ◌^◌,
}
use mobile_chatting_app.Common.Bytes.{Bytes}
use mobile_chatting_app.Codec.Base64.{sextet, b64_chars, drain, encode_loop, pad, base64_encode}

encode_loop_length :
    (s : Bytes) (val : ℕ) (out : Bytes)
    → length (encode_loop s val 0 out) ≡ length out + (4 * length s + 2) / 3
unfolding encode_loop drain
encode_loop_length [] val out = omega arith
encode_loop_length (a ∷ []) val out = rw (length-append, length-append) (omega arith)
encode_loop_length (a ∷ b ∷ []) val out =
    rw (length-append, length-append, length-append) (omega arith)
encode_loop_length (a ∷ b ∷ c ∷ s) val out =
    encode_loop_length s _ _
    ∙ rw (length-append, length-append, length-append, length-append) (omega arith)

-- The text has four bytes for each three bytes begun.
pub length-base64_encode : (s : Bytes) → length (base64_encode s) ≡ 4 * ((length s + 2) / 3)
unfolding base64_encode pad
length-base64_encode s = omega (
  arith,
  encode_loop_length s 0 [],
  length-append (encode_loop s 0 0 [])
      (replicate ((4 - length (encode_loop s 0 0 []) % 4) % 4) b'='),
  length-replicate {A = ℕ} ((4 - length (encode_loop s 0 0 []) % 4) % 4) b'=',
)

-- A byte that separates nothing in the pairs of a message and in its lists.
abbrev pub IsSafe : ℕ → Type 0
IsSafe d = (d ≢ b'&') × (d ≢ b',')

All-append : (xs ys : Bytes) → All IsSafe xs → All IsSafe ys → All IsSafe (xs ++ ys)
All-append [] ys hx hy = hy
All-append (x ∷ xs) ys hx hy = (hx.0, All-append xs ys hx.1 hy)

get_or-IsSafe : (xs : Bytes) (i : ℕ) → All IsSafe xs → IsSafe (get_or xs i 0)
get_or-IsSafe [] i h = (omega arith, omega arith)
get_or-IsSafe (x ∷ xs) zero h = h.0
get_or-IsSafe (x ∷ xs) (suc i) h = get_or-IsSafe xs i h.1

is_safe : (d : ℕ) → Bool
is_safe d = not (d == b'&') && not (d == b',')

all_safe : Bytes → Bool
all_safe [] = true
all_safe (d ∷ s) = is_safe d && all_safe s

all_safe-All : (s : Bytes) → all_safe s ≡ true → All IsSafe s
unfolding all_safe is_safe
all_safe-All [] h = tt
all_safe-All (d ∷ s) h = ((ground arith, ground arith), all_safe-All s (ground arith))

b64_chars-All : All IsSafe b64_chars
b64_chars-All = all_safe-All b64_chars (unfold all_safe is_safe in refl)

sextet-IsSafe : (v k : ℕ) → IsSafe (sextet v k)
sextet-IsSafe v k = get_or-IsSafe b64_chars (v / 2 ^ k % 64) b64_chars-All

drain-All :
    (fuel val bits : ℕ) (out : Bytes) → All IsSafe out → All IsSafe (drain fuel val bits out).1
unfolding drain
drain-All zero val bits out h = h
drain-All (suc fuel) val bits out h = elim (Bool-cases (leb 6 bits)) [
  | inl more ↦
      rw (more)
        (drain-All fuel val (bits - 6) _ (All-append out _ h (sextet-IsSafe val (bits - 6), tt)))
  | inr done ↦ rw (done) h
]

encode_loop-All :
    (s : Bytes) (val bits : ℕ) (out : Bytes)
    → All IsSafe out
    → All IsSafe (encode_loop s val bits out)
unfolding encode_loop
encode_loop-All [] val bits out h = elim (Bool-cases (ltb 0 bits)) [
  | inl more ↦ rw (more) (All-append out _ h (sextet-IsSafe _ (bits + 2), tt))
  | inr done ↦ rw (done) h
]
encode_loop-All (c ∷ s) val bits out h =
    encode_loop-All s _ _ _ (drain-All 3 ((val * 2 ^ 8 + c) % 2 ^ 32) (bits + 8) out h)

replicate-All : (n : ℕ) → All IsSafe (replicate n b'=')
replicate-All zero = tt
replicate-All (suc n) = ((omega arith, omega arith), replicate-All n)

-- The text holds no `&` and no `,`, so that it can stand in a list in a value of a message.
pub base64_encode-All : (s : Bytes) → All IsSafe (base64_encode s)
unfolding base64_encode pad
base64_encode-All s =
    All-append (encode_loop s 0 0 []) _ (encode_loop-All s 0 0 [] tt)
      (replicate-All ((4 - length (encode_loop s 0 0 []) % 4) % 4))
