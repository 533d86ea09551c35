-- ===== src/Base/Uint.antt =====
-- Unsigned integers of a fixed width: `u64`/`Uint64`, `Uint128`, `Uint256`, `Uint512`. A value is a
-- natural number below 2 ^ width; a checked operation that leaves the range gives `none`.
use Prim.Native.Nat.{ℕ, ◌+◌, ◌-◌, ◌*◌, ◌/◌, ◌^◌}
use mathlib.Core.Option.{Option, none, some}
use stratosphere_contracts.Base.Checks.{ltb, leb, ◌==◌, if◌then◌else◌}

-- `try_into` a narrower integer
abbrev pub try_into : ℕ → ℕ → Option ℕ
try_into w a = if ltb a (2 ^ w) then some a else none

abbrev pub checked_add : ℕ → ℕ → ℕ → Option ℕ
checked_add w a b = if ltb (a + b) (2 ^ w) then some (a + b) else none

abbrev pub checked_mul : ℕ → ℕ → ℕ → Option ℕ
checked_mul w a b = if ltb (a * b) (2 ^ w) then some (a * b) else none

abbrev pub checked_sub : ℕ → ℕ → Option ℕ
checked_sub a b = if leb b a then some (a - b) else none

abbrev pub checked_div : ℕ → ℕ → Option ℕ
checked_div a b = if b == 0 then none else some (a / b)

-- Subtraction on ℕ stops at 0, as this does.
abbrev pub saturating_sub : ℕ → ℕ → ℕ
saturating_sub a b = a - b

-- `self * numerator / denominator`, the product in a wider integer
abbrev pub checked_multiply_ratio : ℕ → ℕ → ℕ → ℕ → Option ℕ
checked_multiply_ratio w a n d = if d == 0 then none else try_into w (a * n / d)

-- `Timestamp`, in nanoseconds of 64 bits: `plus_seconds` panics on overflow, `seconds` rounds down.
abbrev pub plus_seconds : ℕ → ℕ → Option ℕ
plus_seconds time n = checked_add 64 time (n * 1000000000)

abbrev pub seconds : ℕ → ℕ
seconds time = time / 1000000000
