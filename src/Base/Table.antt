-- ===== src/Base/Table.antt =====
-- A claim about every number below a bound, by evaluation.
use Prim.Native.Nat.{ℕ, zero, suc, ◌<◌}
use mathlib.Core.Path.{◌≡◌}
use mathlib.Core.Bool.{Bool, true, false, ◌&&◌}
use native.Mathlib.Omega.{arith}

unfoldable pub every : ℕ → (ℕ → Bool) → Bool
every zero test = true
every (suc n) test = test n && every n test

pub every_sound : (n : ℕ) (test : ℕ → Bool) (x : ℕ) → every n test ≡ true → x < n → test x ≡ true
unfolding every
every_sound zero test x h below = absurd (omega arith)
every_sound (suc n) test x h below = ground (arith, every_sound n test x)

-- Whether two truth values agree.
abbrev pub same : Bool → Bool → Bool
same true b = b
same false true = false
same false false = true

pub same→eq : (a b : Bool) → same a b ≡ true → a ≡ b
same→eq a b h = ground arith
