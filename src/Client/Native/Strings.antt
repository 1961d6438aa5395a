-- ===== src/Client/Native/Strings.antt =====
-- Java's modified UTF-8, which `NewStringUTF` of app/src/main/cpp/native-lib.cpp takes: zero is written
-- in two bytes, and a character beyond the basic plane as two surrogates of three bytes each.
use mobile_chatting_app.Common.{
  ℕ, ◌≡◌, Bool, true, false, ◌&&◌, List, [], ◌∷◌, ◌++◌, Option, none, some, ◌==◌, leb,
  if◌then◌else◌, arith,
}
use mobile_chatting_app.Common.Bytes.{Bytes}

abbrev within : ℕ → ℕ → ℕ → Bool
within low high c = leb low c && leb c high

-- The bounds of the bytes that a first byte asks for; `none` when no character starts with it.
unfoldable pub asked_by : ℕ → Option (List (ℕ × ℕ))
asked_by c =
    if within 1 127 c
    then some []
    else if c == 192
    then some ((128, 128) ∷ [])
    else if within 194 223 c
    then some ((128, 191) ∷ [])
    else if c == 224
    then some ((160, 191) ∷ (128, 191) ∷ [])
    else if within 225 239 c
    then some ((128, 191) ∷ (128, 191) ∷ [])
    else none

unfoldable pub continues : List (ℕ × ℕ) → Bytes → Bool
unfolding asked_by
continues [] [] = true
continues (_ ∷ _) [] = false
continues [] (c ∷ s) = elim (asked_by c) [ none ↦ false | some asked ↦ continues asked s ]
continues ((low, high) ∷ asked) (c ∷ s) = within low high c && continues asked s

abbrev pub is_modified_utf8 : Bytes → Bool
is_modified_utf8 s = continues [] s

-- The documented behaviour of `NewStringUTF`: modified UTF-8 gives the string that it writes. Nothing
-- is said of other bytes.
abbrev pub IsNewString : (Bytes → Option Bytes) → Type 0
IsNewString new_string_utf = (s : Bytes) → is_modified_utf8 s ≡ true → new_string_utf s ≡ some s

abbrev pub is_ascii : Bytes → Bool
is_ascii [] = true
is_ascii (c ∷ s) = within 1 127 c && is_ascii s

-- Characters of ASCII in front of modified UTF-8.
pub continues-ascii :
    (p s : Bytes) → is_ascii p ≡ true → is_modified_utf8 s ≡ true → is_modified_utf8 (p ++ s) ≡ true
unfolding continues asked_by
continues-ascii [] s h k = k
continues-ascii (c ∷ p) s h k =
    rw (continues, asked_by, head c (is_ascii p) h) (continues-ascii p s (tail c (is_ascii p) h) k)
  where
    head : (c : ℕ) (r : Bool) → (within 1 127 c && r) ≡ true → within 1 127 c ≡ true
    head c r h = ground (arith, h)

    tail : (c : ℕ) (r : Bool) → (within 1 127 c && r) ≡ true → r ≡ true
    tail c r h = ground (arith, h)
