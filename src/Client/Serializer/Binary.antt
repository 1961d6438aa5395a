-- ===== src/Client/Serializer/Binary.antt =====
-- app/src/main/cpp/message_serializer.cpp: numbers and texts as bytes. A pointer is the bytes from it
-- to the end of its buffer; `none` is a read past this end.
use Prim.Native.Nat.{bit_or}
use mobile_chatting_app.Common.{
  ℕ, zero, suc, ◌*◌, ◌/◌, ◌%◌, ◌^◌, ◌≤◌, ◌<◌, ◌≡◌, refl, ap, ◌∙◌, subst, false, [], ◌∷◌, ◌++◌,
  append_assoc, Option, none, some, ltb, if◌then◌else◌, length, take, drop, take-append_length,
  drop-append_length, length-append, arith, Bool-cases, inl, inr,
}
use mobile_chatting_app.Common.Bytes.{Bytes}
use mobile_chatting_app.Common.Or.{bit_or_fields}

unfoldable pub write_uint32 : ℕ → Bytes → Bytes
write_uint32 value buffer =
    buffer ++ (value / 2 ^ 24 % 256 ∷ value / 2 ^ 16 % 256 ∷ value / 2 ^ 8 % 256 ∷ value % 256 ∷ [])

unfoldable pub write_uint64 : ℕ → Bytes → Bytes
write_uint64 value buffer =
    buffer
    ++ (value / 2 ^ 56 % 256
        ∷ value / 2 ^ 48 % 256
        ∷ value / 2 ^ 40 % 256
        ∷ value / 2 ^ 32 % 256
        ∷ value / 2 ^ 24 % 256
        ∷ value / 2 ^ 16 % 256
        ∷ value / 2 ^ 8 % 256
        ∷ value % 256
        ∷ [])

-- The length is written as a `uint32_t`.
unfoldable pub write_string : Bytes → Bytes → Bytes
unfolding write_uint32
write_string str buffer = write_uint32 (length str % 2 ^ 32) buffer ++ str

unfoldable pub read_uint32 : Bytes → Option (ℕ × Bytes)
read_uint32 (a ∷ b ∷ c ∷ d ∷ rest) =
    some (bit_or (bit_or (bit_or (a * 2 ^ 24) (b * 2 ^ 16)) (c * 2 ^ 8)) d, rest)
read_uint32 _ = none

unfoldable pub read_uint64 : Bytes → Option (ℕ × Bytes)
read_uint64 (a ∷ b ∷ c ∷ d ∷ e ∷ f ∷ g ∷ h ∷ rest) = some (
  bit_or
      (bit_or
        (bit_or
          (bit_or (bit_or (bit_or (bit_or (a * 2 ^ 56) (b * 2 ^ 48)) (c * 2 ^ 40)) (d * 2 ^ 32))
            (e * 2 ^ 24))
          (f * 2 ^ 16))
        (g * 2 ^ 8))
      h,
  rest,
)
read_uint64 _ = none

-- At most `max_length` bytes are read, and the rest of a longer text is left.
unfoldable pub read_string : ℕ → Bytes → Option (Bytes × Bytes)
unfolding read_uint32
read_string max_length ptr = elim (read_uint32 ptr) [
  | none ↦ none
  | some (announced, rest) ↦
      let size = if ltb max_length announced then max_length % 2 ^ 32 else announced in
      if ltb (length rest) size then none else some (take size rest, drop size rest)
]

-- A number is read back from its bytes.
pub read_uint32-write_uint32 :
    (value : ℕ) (rest : Bytes)
    → value < 2 ^ 32
    → read_uint32 (write_uint32 value [] ++ rest) ≡ some (value, rest)
unfolding read_uint32 write_uint32
read_uint32-write_uint32 value rest h =
    let e1 : bit_or ((value / 2 ^ 24 % 2 ^ 8) * 2 ^ 24) ((value / 2 ^ 16 % 256) * 2 ^ 16)
        ≡ (value / 2 ^ 16 % 2 ^ 16) * 2 ^ 16 =
      bit_or_fields 24 (value / 2 ^ 24 % 2 ^ 8) ((value / 2 ^ 16 % 256) * 2 ^ 16) (omega arith)
      ∙ omega arith in
    let e2 : bit_or ((value / 2 ^ 16 % 2 ^ 16) * 2 ^ 16) ((value / 2 ^ 8 % 256) * 2 ^ 8)
        ≡ (value / 2 ^ 8 % 2 ^ 24) * 2 ^ 8 =
      bit_or_fields 16 (value / 2 ^ 16 % 2 ^ 16) ((value / 2 ^ 8 % 256) * 2 ^ 8) (omega arith)
      ∙ omega arith in
    let e3 : bit_or ((value / 2 ^ 8 % 2 ^ 24) * 2 ^ 8) (value % 256) ≡ (value % 2 ^ 32) =
      bit_or_fields 8 (value / 2 ^ 8 % 2 ^ 24) (value % 256) (omega arith) ∙ omega arith in
    rw (e1, e2, e3) (ap (λ v. some (v, rest)) (omega arith))

-- A number is read back from its bytes.
pub read_uint64-write_uint64 :
    (value : ℕ) (rest : Bytes)
    → value < 2 ^ 64
    → read_uint64 (write_uint64 value [] ++ rest) ≡ some (value, rest)
unfolding read_uint64 write_uint64
read_uint64-write_uint64 value rest h =
    let e1 : bit_or ((value / 2 ^ 56 % 2 ^ 8) * 2 ^ 56) ((value / 2 ^ 48 % 256) * 2 ^ 48)
        ≡ (value / 2 ^ 48 % 2 ^ 16) * 2 ^ 48 =
      bit_or_fields 56 (value / 2 ^ 56 % 2 ^ 8) ((value / 2 ^ 48 % 256) * 2 ^ 48) (omega arith)
      ∙ omega arith in
    let e2 : bit_or ((value / 2 ^ 48 % 2 ^ 16) * 2 ^ 48) ((value / 2 ^ 40 % 256) * 2 ^ 40)
        ≡ (value / 2 ^ 40 % 2 ^ 24) * 2 ^ 40 =
      bit_or_fields 48 (value / 2 ^ 48 % 2 ^ 16) ((value / 2 ^ 40 % 256) * 2 ^ 40) (omega arith)
      ∙ omega arith in
    let e3 : bit_or ((value / 2 ^ 40 % 2 ^ 24) * 2 ^ 40) ((value / 2 ^ 32 % 256) * 2 ^ 32)
        ≡ (value / 2 ^ 32 % 2 ^ 32) * 2 ^ 32 =
      bit_or_fields 40 (value / 2 ^ 40 % 2 ^ 24) ((value / 2 ^ 32 % 256) * 2 ^ 32) (omega arith)
      ∙ omega arith in
    let e4 : bit_or ((value / 2 ^ 32 % 2 ^ 32) * 2 ^ 32) ((value / 2 ^ 24 % 256) * 2 ^ 24)
        ≡ (value / 2 ^ 24 % 2 ^ 40) * 2 ^ 24 =
      bit_or_fields 32 (value / 2 ^ 32 % 2 ^ 32) ((value / 2 ^ 24 % 256) * 2 ^ 24) (omega arith)
      ∙ omega arith in
    let e5 : bit_or ((value / 2 ^ 24 % 2 ^ 40) * 2 ^ 24) ((value / 2 ^ 16 % 256) * 2 ^ 16)
        ≡ (value / 2 ^ 16 % 2 ^ 48) * 2 ^ 16 =
      bit_or_fields 24 (value / 2 ^ 24 % 2 ^ 40) ((value / 2 ^ 16 % 256) * 2 ^ 16) (omega arith)
      ∙ omega arith in
    let e6 : bit_or ((value / 2 ^ 16 % 2 ^ 48) * 2 ^ 16) ((value / 2 ^ 8 % 256) * 2 ^ 8)
        ≡ (value / 2 ^ 8 % 2 ^ 56) * 2 ^ 8 =
      bit_or_fields 16 (value / 2 ^ 16 % 2 ^ 48) ((value / 2 ^ 8 % 256) * 2 ^ 8) (omega arith)
      ∙ omega arith in
    let e7 : bit_or ((value / 2 ^ 8 % 2 ^ 56) * 2 ^ 8) (value % 256) ≡ (value % 2 ^ 64) =
      bit_or_fields 8 (value / 2 ^ 8 % 2 ^ 56) (value % 256) (omega arith) ∙ omega arith in
    rw (e1, e2, e3, e4, e5, e6, e7) (ap (λ v. some (v, rest)) (omega arith))

take-append_front : (n : ℕ) (xs ys : Bytes) → n ≤ length xs → take n (xs ++ ys) ≡ take n xs
take-append_front zero xs ys h = refl
take-append_front (suc n) [] ys h = absurd (omega arith)
take-append_front (suc n) (x ∷ xs) ys h = ap (λ t. x ∷ t) (take-append_front n xs ys (omega arith))

drop-append_front : (n : ℕ) (xs ys : Bytes) → n ≤ length xs → drop n (xs ++ ys) ≡ drop n xs ++ ys
drop-append_front zero xs ys h = refl
drop-append_front (suc n) [] ys h = absurd (omega arith)
drop-append_front (suc n) (x ∷ xs) ys h = drop-append_front n xs ys (omega arith)

take_all : (n : ℕ) (xs : Bytes) → length xs ≤ n → take n xs ≡ xs
take_all zero [] h = refl
take_all zero (x ∷ xs) h = absurd (omega arith)
take_all (suc n) [] h = refl
take_all (suc n) (x ∷ xs) h = ap (λ t. x ∷ t) (take_all n xs (omega arith))

drop_all : (n : ℕ) (xs : Bytes) → length xs ≤ n → drop n xs ≡ []
drop_all zero [] h = refl
drop_all zero (x ∷ xs) h = absurd (omega arith)
drop_all (suc n) [] h = refl
drop_all (suc n) (x ∷ xs) h = drop_all n xs (omega arith)

-- What is read once the length is known.
read_body :
    (max_length n : ℕ) (ptr str rest : Bytes)
    → max_length < 2 ^ 32
    → length str ≡ n
    → read_uint32 ptr ≡ some (n, str ++ rest)
    → read_string max_length ptr ≡ some (take max_length str, drop max_length str ++ rest)
unfolding read_string
read_body max_length n ptr str rest k e h = elim (Bool-cases (ltb max_length n)) [
  | inl longer ↦
      let size : max_length % 2 ^ 32 ≡ max_length = omega arith in
      let there : ltb (length (str ++ rest)) max_length ≡ false =
        ground (arith, length-append str rest, longer, e) in
      let fits : max_length ≤ length str = ground (arith, longer, e) in
      rw
        (
          read_string,
          h,
          longer,
          size,
          there,
          take-append_front max_length str rest fits,
          drop-append_front max_length str rest fits,
        )
        refl
  | inr short ↦
      let there : ltb (length (str ++ rest)) n ≡ false =
        ground (arith, length-append str rest, e) in
      let fits : length str ≤ max_length = ground (arith, short, e) in
      let front : take n (str ++ rest) ≡ str =
        subst (λ m. take m (str ++ rest) ≡ str) e (take-append_length str rest) in
      let back : drop n (str ++ rest) ≡ rest =
        subst (λ m. drop m (str ++ rest) ≡ rest) e (drop-append_length str rest) in
      rw
        (
          read_string,
          h,
          short,
          there,
          front,
          back,
          take_all max_length str fits,
          drop_all max_length str fits,
        )
        refl
]

-- A text is read back, and what follows it is left, where it is not longer than the reader allows; of
-- a longer text the front is read and the rest stays in front of what follows.
pub read_string-write_string :
    (max_length : ℕ) (str rest : Bytes)
    → length str < 2 ^ 32
    → max_length < 2 ^ 32
    → read_string max_length (write_string str [] ++ rest)
      ≡ some (take max_length str, drop max_length str ++ rest)
unfolding write_string
read_string-write_string max_length str rest h k =
    let size : length str % 2 ^ 32 ≡ length str = omega arith in
    read_body max_length (length str) (write_string str [] ++ rest) str rest k refl (
      ap read_uint32 (
        append_assoc (write_uint32 (length str % 2 ^ 32) []) str rest
        ∙ ap (λ n. write_uint32 n [] ++ (str ++ rest)) size)
      ∙ read_uint32-write_uint32 (length str) (str ++ rest) h)
