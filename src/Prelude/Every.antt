-- ===== src/Prelude/Every.antt =====
-- Facts about every number below a bound, by evaluation.
use Prim.Native.Nat.{ℕ, zero, suc, ◌<◌}
use mathlib.Core.Path.{◌≡◌}
use mathlib.Core.Bool.{Bool, true, ◌&&◌}
use native.Mathlib.Omega.{arith}

unfoldable pub every : ℕ → (ℕ → Bool) → Bool
every zero test = true
every (suc n) test = every n test && test n

pub every-below : (n x : ℕ) (test : ℕ → Bool) → every n test ≡ true → x < n → test x ≡ true
unfolding every
every-below zero x test h lt = absurd (omega arith)
every-below (suc n) x test h lt = ground (arith, every-below n x test)
