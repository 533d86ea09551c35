-- ===== src/Pool/Stable.antt =====
-- The stableswap invariant: math.rs and, of helpers.rs, calculate_stableswap_d and
-- calculate_stableswap_y (pool-manager/src). A decimal is its atomics; the loops run on the source's numbers of rounds.
use stratosphere_contracts.Base.{
  ℕ, zero, suc, ◌-◌, ◌^◌, leb, ◌==◌, if◌then◌else◌, Bool, Result, ok, err, ◌>>=◌, ok_or,
  checked_add, checked_mul, checked_sub, checked_div, checked_multiply_ratio, try_into,
}
use stratosphere_contracts.Base.Decimals.{one}
use stratosphere_contracts.Pool.Data.{
  ContractError, External, panic, overflow_error, checked_multiply_ratio_error,
  checked_from_ratio_error, divide_by_zero_error, converge_error, swap_overflow_error,
  decimal_overflow,
}

unfoldable pub decimal_with_precision : External → ℕ → ℕ → Result ContractError ℕ
decimal_with_precision x value precision =
    ok_or (x.decimal256.from_atomics value precision) decimal_overflow

unfoldable pub to_uint256_with_precision : ℕ → ℕ → Result ContractError ℕ
to_uint256_with_precision value precision = do
  digits ← ok_or (checked_sub 18 precision) panic
  ok_or (checked_div value (10 ^ digits)) divide_by_zero_error

-- `checked_multiply_ratio` on decimals, with its error
abbrev multiply_decimal_ratio : ℕ → ℕ → ℕ → Result ContractError ℕ
multiply_decimal_ratio a n d = ok_or (checked_multiply_ratio 256 a n d) checked_multiply_ratio_error

abbrev newton_iterations : ℕ
newton_iterations = 32

-- `current_d` is within `precision` of `old_d`, from above or from below.
unfoldable pub near : ℕ → ℕ → ℕ → Bool
near unit a b = if leb b a then leb (a - b) unit else leb (b - a) unit

-- One round: the next value of `current_d`.
unfoldable pub next_stableswap_d : External → ℕ → ℕ → ℕ → ℕ → ℕ → Result ContractError ℕ
next_stableswap_d x n_coins ann offer_pool ask_pool current_d = do
  sum_pools ← ok_or (x.decimal256.checked_add offer_pool ask_pool) overflow_error
  offer_coins ← ok_or (x.decimal256.checked_mul offer_pool n_coins) overflow_error
  over_offer ← multiply_decimal_ratio current_d current_d offer_coins
  ask_coins ← ok_or (x.decimal256.checked_mul ask_pool n_coins) overflow_error
  new_d ← multiply_decimal_ratio over_offer current_d ask_coins
  leverage ← ok_or (x.decimal256.checked_mul ann sum_pools) overflow_error
  new_d_coins ← ok_or (x.decimal256.checked_mul new_d n_coins) overflow_error
  weighted ← ok_or (x.decimal256.checked_add leverage new_d_coins) overflow_error
  numerator ← ok_or (x.decimal256.checked_mul weighted current_d) overflow_error
  ann_less_one ← ok_or (x.decimal256.checked_sub ann one) overflow_error
  scaled ← ok_or (x.decimal256.checked_mul ann_less_one current_d) overflow_error
  coins_and_one ← ok_or (x.decimal256.checked_add n_coins one) overflow_error
  rest ← ok_or (x.decimal256.checked_mul coins_and_one new_d) overflow_error
  denominator ← ok_or (x.decimal256.checked_add scaled rest) overflow_error
  ok_or (x.decimal256.checked_div numerator denominator) checked_from_ratio_error

-- A Newton iteration: at most `n` rounds, until two successive values are near.
unfoldable pub newton :
    (ℕ → Result ContractError ℕ) → Result ContractError ℕ → ℕ → ℕ → Result ContractError ℕ
unfolding near
newton next precision zero current = err converge_error
newton next precision (suc n) current = do
  value ← next current
  unit ← precision
  let rest = newton next precision n value
  if near unit value current then ok value else rest

unfoldable pub calculate_stableswap_d : External → ℕ → ℕ → ℕ → ℕ → ℕ → Result ContractError ℕ
unfolding newton next_stableswap_d decimal_with_precision
calculate_stableswap_d x n_coins offer_pool ask_pool amp precision = do
  n_coins_decimal ← ok_or (x.decimal256.from_ratio n_coins 1) panic
  sum_pools ← ok_or (x.decimal256.checked_add offer_pool ask_pool) overflow_error
  if sum_pools == 0 then ok 0 else do
    ann_coins ← ok_or (checked_mul 256 amp n_coins) overflow_error
    ann ← ok_or (x.decimal256.from_ratio ann_coins 1) panic
    newton (next_stableswap_d x n_coins_decimal ann offer_pool ask_pool)
        (decimal_with_precision x 1 precision) newton_iterations sum_pools

pub data StableSwapDirection : Type 0 where
  simulate reverse_simulate : StableSwapDirection

-- The offer is added to its pool, or the ask is taken out of its own.
unfoldable pub new_pool_sum : External → StableSwapDirection → ℕ → ℕ → ℕ → Result ContractError ℕ
new_pool_sum x simulate offer_pool ask_pool amount =
    ok_or (x.decimal256.checked_add offer_pool amount) overflow_error
new_pool_sum x reverse_simulate offer_pool ask_pool amount =
    ok_or (x.decimal256.checked_sub ask_pool amount) overflow_error

-- One round for `y`: (y² + c) / (2y + b - d)
unfoldable pub next_stableswap_y : ℕ → ℕ → ℕ → ℕ → Result ContractError ℕ
next_stableswap_y d b c y = do
  square ← ok_or (checked_mul 256 y y) overflow_error
  numerator ← ok_or (checked_add 256 square c) overflow_error
  double ← ok_or (checked_add 256 y y) overflow_error
  sum ← ok_or (checked_add 256 double b) overflow_error
  denominator ← ok_or (checked_sub sum d) overflow_error
  ok_or (checked_div numerator denominator) divide_by_zero_error

unfoldable pub calculate_stableswap_y :
    External → ℕ → ℕ → ℕ → ℕ → ℕ → ℕ → StableSwapDirection → Result ContractError ℕ
unfolding calculate_stableswap_d to_uint256_with_precision new_pool_sum next_stableswap_y newton
calculate_stableswap_y x n_coins offer_pool ask_pool offer_amount amp ask_precision direction = do
  ann ← ok_or (checked_mul 256 amp n_coins) overflow_error
  d_decimal ← calculate_stableswap_d x n_coins offer_pool ask_pool amp ask_precision
  d ← to_uint256_with_precision d_decimal ask_precision
  sum_decimal ← new_pool_sum x direction offer_pool ask_pool offer_amount
  pool_sum ← to_uint256_with_precision sum_decimal ask_precision
  pool_sum_coins ← ok_or (checked_mul 256 pool_sum n_coins) overflow_error
  first ← multiply_decimal_ratio d d pool_sum_coins
  ann_n_coins ← ok_or (checked_mul 256 ann n_coins) overflow_error
  c ← multiply_decimal_ratio first d ann_n_coins
  d_over_ann ← ok_or (checked_div d ann) divide_by_zero_error
  b ← ok_or (checked_add 256 pool_sum d_over_ann) overflow_error
  y ← newton (next_stableswap_y d b c) (ok 1) newton_iterations d
  ok_or (try_into 128 y) swap_overflow_error
