-- ===== src/Base/Decimals.antt =====
-- `Decimal` and `Decimal256` of cosmwasm_std, which the sources call: the operations on the atomics
-- (the value times 10 ^ 18) are parameters, and `IsFixedPoint` states their documented behaviour.
use stratosphere_contracts.Base.Checks.{◌==◌, if◌then◌else◌}
use stratosphere_contracts.Base.Uint.{try_into}
use Prim.Native.Nat.{ℕ, ◌*◌, ◌/◌}
use mathlib.Core.Path.{◌≡◌}
use mathlib.Core.Option.{Option, none}

-- An operation that fails, by an error or by a panic, gives `none`.
pub record Decimals : Type 0 where
  pub from_atomics : ℕ → ℕ → Option ℕ
  pub from_ratio : ℕ → ℕ → Option ℕ
  pub checked_add : ℕ → ℕ → Option ℕ
  pub checked_sub : ℕ → ℕ → Option ℕ
  pub checked_mul : ℕ → ℕ → Option ℕ
  pub checked_div : ℕ → ℕ → Option ℕ
  pub checked_pow : ℕ → ℕ → Option ℕ
  pub inv : ℕ → Option ℕ
  pub to_uint_floor : ℕ → ℕ

-- `Decimal::one()`
abbrev pub one : ℕ
one = 1000000000000000000

-- A fixed-point number of 18 digits in an integer of `w` bits; products and quotients round down.
pub record IsFixedPoint (w : ℕ) (d : Decimals) : Type 0 where
  pub from_ratio_law :
      (n k : ℕ) → d.from_ratio n k ≡ (if k == 0 then none else try_into w (n * one / k))
  pub checked_mul_law : (a b : ℕ) → d.checked_mul a b ≡ try_into w (a * b / one)
  pub to_uint_floor_law : (a : ℕ) → d.to_uint_floor a ≡ a / one
