-- ===== src/Base/Number.antt =====
-- The numbers of JavaScript that the forms compare with whole constants: NaN, the infinities and
-- fractions. `ratio n d` is n / (d + 1) and `minus n d` is -(n + 1) / (d + 1).
use Prim.Native.Nat.{ℕ, ◌*◌, suc}
use mathlib.Core.Bool.{Bool, true, false}
use wazire.Base.Tests.{ltb, leb, ◌==◌}

pub data Number : Type 0 where
  nan infinity neg_infinity : Number
  ratio : ℕ → ℕ → Number
  minus : ℕ → ℕ → Number

-- `x < k`, `x <= k` and `x > k` for a whole constant k of the source. All fail at NaN.
abbrev pub lt_const : Number → ℕ → Bool
lt_const nan k = false
lt_const infinity k = false
lt_const neg_infinity k = true
lt_const (ratio n d) k = ltb n (k * suc d)
lt_const (minus n d) k = true

abbrev pub le_const : Number → ℕ → Bool
le_const nan k = false
le_const infinity k = false
le_const neg_infinity k = true
le_const (ratio n d) k = leb n (k * suc d)
le_const (minus n d) k = true

abbrev pub gt_const : Number → ℕ → Bool
gt_const nan k = false
gt_const infinity k = true
gt_const neg_infinity k = false
gt_const (ratio n d) k = ltb (k * suc d) n
gt_const (minus n d) k = false

-- `!x`: true at 0 and at NaN.
abbrev pub is_falsy : Number → Bool
is_falsy nan = true
is_falsy (ratio n d) = n == 0
is_falsy _ = false

abbrev pub whole : ℕ → Number
whole n = ratio n 0
