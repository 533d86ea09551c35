-- ===== src/Base/Rounding.antt =====
-- Whole numbers that pass through a fixed-point number: what the roundings keep.
use native.Mathlib.Nat.{mul-le-mul_right, le_of_mul-le-mul_right, div-mul-le_self}
use Prim.Native.Nat.{ℕ, ◌*◌, ◌/◌, ◌≤◌, ◌<◌}
use mathlib.Core.Path.{◌≡◌}
use mathlib.Core.Option.{some}
use native.Mathlib.Omega.{arith}
use stratosphere_contracts.Base.Decimals.{Decimals, IsFixedPoint, one}

pub div_mul-le : (n k : ℕ) → 0 < k → (n / k) * k ≤ n
div_mul-le n k h = div-mul-le_self n k

pub floor_mul-le : (r n k : ℕ) → r * k ≤ n * one → (r / one) * k ≤ n
floor_mul-le r n k h =
    let a : (r / one) * one ≤ r = omega arith in
    le_of_mul-le-mul_right {k = one} (omega (arith, mul-le-mul_right k a)) (omega arith)

-- The whole part of a ratio, times its denominator, is at most the numerator.
module _ (w : ℕ) (d : Decimals) (law : IsFixedPoint w d) where
  pub from_ratio_floor :
      (n k : ℕ) {r : ℕ} → d.from_ratio n k ≡ some r → (d.to_uint_floor r * k ≤ n) × (0 < k)
  from_ratio_floor n k {r = r} e = grind (
    arith,
    law.from_ratio_law n k,
    law.to_uint_floor_law r,
    div_mul-le (n * one) k,
    floor_mul-le r n k,
  )

  -- A whole number as a decimal.
  pub from_whole : (n : ℕ) {r : ℕ} → d.from_ratio n 1 ≡ some r → r ≡ n * one
  from_whole n e = grind (arith, law.from_ratio_law n 1)
