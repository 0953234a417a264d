-- ===== src/Common/Tables.antt =====
-- A Boolean test at every number below a bound, checked by evaluation.
use Prim.Native.Nat.{ℕ, zero, suc, ◌<◌}
use mathlib.Core.Path.{◌≡◌, refl}
use mathlib.Core.Bool.{Bool, true, false, ◌&&◌}
use native.Mathlib.Omega.{arith}

unfoldable pub every_below : ℕ → (ℕ → Bool) → Bool
every_below zero test = true
every_below (suc n) test = test n && every_below n test

pub every_below→at :
    (n : ℕ) (test : ℕ → Bool) (i : ℕ) → every_below n test ≡ true → i < n → test i ≡ true
unfolding every_below
every_below→at zero test i e h = absurd (omega arith)
every_below→at (suc n) test i e h = ground (arith, every_below→at n test i)

-- The test of two flags for being the same.
abbrev pub same : Bool → Bool → Bool
same true b = b
same false true = false
same false false = true

pub same→eq : (a b : Bool) → same a b ≡ true → a ≡ b
same→eq true true e = refl
same→eq true false e = cc
same→eq false true e = cc
same→eq false false e = refl
