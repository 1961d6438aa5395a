-- ===== src/Common/Below.antt =====
-- Facts about the numbers below a bound, by trying them all.
use Prim.Native.Nat.{ℕ, zero, suc, ◌<◌}
use mathlib.Core.Path.{◌≡◌, refl}
use mathlib.Core.Logic.{◌⊎◌, inl, inr}
use mathlib.Core.Bool.{Bool, true, false, ◌&&◌}
use native.Mathlib.Omega.{arith}
use mobile_chatting_app.Common.Tests.{◌==◌, ==_iff}

-- Two functions have the same values below `n`.
abbrev pub agree_below : (ℕ → ℕ) → (ℕ → ℕ) → ℕ → Bool
agree_below f g zero = true
agree_below f g (suc n) = (f n == g n) && agree_below f g n

pub agree_below_lem : (f g : ℕ → ℕ) (n i : ℕ) → agree_below f g n ≡ true → i < n → f i ≡ g i
agree_below_lem f g zero i h k = absurd (omega arith)
agree_below_lem f g (suc n) i h k =
    let (now, rest) = &&-true (f n == g n) (agree_below f g n) h in
    elim (last_or_below n i k) [
      | inl e ↦ rw e ((==_iff (f n) (g n)).0 now)
      | inr below ↦ agree_below_lem f g n i rest below
    ]
  where
    &&-true : (a b : Bool) → (a && b) ≡ true → (a ≡ true) × (b ≡ true)
    &&-true true b h = (refl, h)
    &&-true false b h = absurd (ground (arith, h))

    last_or_below : (n i : ℕ) → i < suc n → (i ≡ n) ⊎ (i < n)
    last_or_below n i k = omega arith
