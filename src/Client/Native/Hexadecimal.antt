-- ===== src/Client/Native/Hexadecimal.antt =====
-- The text that `nativeEncrypt` makes of bytes is read back by `nativeDecrypt`
-- (app/src/main/cpp/native-lib.cpp).
use mobile_chatting_app.Common.{
  ℕ, ◌<◌, ◌≡◌, ◌≢◌, refl, ap, ◌∙◌, Bool, true, false, ◌&&◌, not, [], ◌∷◌, ◌++◌, ◌==◌, if◌then◌else◌,
  length, All, arith,
}
use mobile_chatting_app.Common.Bytes.{Bytes, Lacks}
use mobile_chatting_app.Common.Below.{agree_below, agree_below_lem}
use mobile_chatting_app.Common.Decimal.{skip_spaces}
use mobile_chatting_app.Codec.Pieces.{Lacks-append}
use mobile_chatting_app.Client.Hex.{setw, to_hex, length-setw, strtol}
use mobile_chatting_app.Client.Crypto.{hex_numbers}
use mobile_chatting_app.Client.Native.{byte_of_text, bytes_of_hex}
use mobile_chatting_app.Client.Native.Strings.{
  is_ascii, is_modified_utf8, continues, continues-ascii,
}

abbrev places : ℕ → Bytes
places b = setw 2 (to_hex b)

abbrev lacks_zero : Bytes → Bool
lacks_zero [] = true
lacks_zero (c ∷ s) = not (c == 0) && lacks_zero s

lacks_zero-Lacks : (s : Bytes) → lacks_zero s ≡ true → Lacks 0 s
lacks_zero-Lacks [] h = tt
lacks_zero-Lacks (c ∷ s) h = (head c (lacks_zero s) h, lacks_zero-Lacks s (tail c (lacks_zero s) h))
  where
    head : (c : ℕ) (r : Bool) → (not (c == 0) && r) ≡ true → c ≢ 0
    head c r h = ground (arith, h)

    tail : (c : ℕ) (r : Bool) → (not (c == 0) && r) ≡ true → r ≡ true
    tail c r h = ground (arith, h)

all_bytes : agree_below (λ b. byte_of_text (places b)) (λ b. b) 256 ≡ true
unfolding byte_of_text strtol setw to_hex skip_spaces
all_bytes = refl

no_zeros : agree_below (λ b. if lacks_zero (places b) then 1 else 0) (λ b. 1) 256 ≡ true
unfolding setw to_hex
no_zeros = refl

all_ascii : agree_below (λ b. if is_ascii (places b) then 1 else 0) (λ b. 1) 256 ≡ true
unfolding setw to_hex
all_ascii = refl

one_if : (t : Bool) → ◌≡◌ {A = ℕ} (if t then 1 else 0) 1 → t ≡ true
one_if true e = refl
one_if false e = absurd (omega (arith, e))

byte_of_places : (b : ℕ) → b < 256 → byte_of_text (places b) ≡ b
byte_of_places b h = agree_below_lem (λ b. byte_of_text (places b)) (λ b. b) 256 b all_bytes h

places-Lacks : (b : ℕ) → b < 256 → Lacks 0 (places b)
places-Lacks b h = lacks_zero-Lacks (places b) (
    one_if (lacks_zero (places b))
      (agree_below_lem (λ b. if lacks_zero (places b) then 1 else 0) (λ b. 1) 256 b no_zeros h))

-- Two places in front of a text make one byte.
read_two : (p s : Bytes) → length p ≡ 2 → bytes_of_hex (p ++ s) ≡ byte_of_text p ∷ bytes_of_hex s
unfolding bytes_of_hex
read_two [] s h = absurd (omega arith)
read_two (c ∷ []) s h = absurd (omega arith)
read_two (c ∷ d ∷ []) s h = refl
read_two (c ∷ d ∷ e ∷ p) s h = absurd (omega arith)

pub bytes_of_hex-hex_numbers :
    (bs : Bytes) → All (λ b. b < 256) bs → bytes_of_hex (hex_numbers 2 bs) ≡ bs
unfolding hex_numbers bytes_of_hex
bytes_of_hex-hex_numbers [] h = refl
bytes_of_hex-hex_numbers (b ∷ bs) (h, hs) =
    read_two (places b) (hex_numbers 2 bs) (length-setw 1 b (omega arith))
    ∙ ap (λ x. x ∷ bytes_of_hex (hex_numbers 2 bs)) (byte_of_places b h)
    ∙ ap (λ s. b ∷ s) (bytes_of_hex-hex_numbers bs hs)

pub hex_numbers-Lacks : (bs : Bytes) → All (λ b. b < 256) bs → Lacks 0 (hex_numbers 2 bs)
unfolding hex_numbers
hex_numbers-Lacks [] h = tt
hex_numbers-Lacks (b ∷ bs) (h, hs) =
    Lacks-append 0 (places b) (hex_numbers 2 bs) (places-Lacks b h) (hex_numbers-Lacks bs hs)

pub hex_numbers-is_modified_utf8 :
    (bs : Bytes) → All (λ b. b < 256) bs → is_modified_utf8 (hex_numbers 2 bs) ≡ true
unfolding hex_numbers
hex_numbers-is_modified_utf8 [] h = unfold continues in refl
hex_numbers-is_modified_utf8 (b ∷ bs) (h, hs) =
    continues-ascii (places b) (hex_numbers 2 bs)
      (one_if (is_ascii (places b))
        (agree_below_lem (λ b. if is_ascii (places b) then 1 else 0) (λ b. 1) 256 b all_ascii h))
      (hex_numbers-is_modified_utf8 bs hs)
