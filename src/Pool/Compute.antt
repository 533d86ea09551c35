-- ===== src/Pool/Compute.antt =====
-- The amounts of a swap: compute_swap, compute_fees, get_swap_computation and compute_offer_amount
-- of pool-manager/src/helpers.rs.
use stratosphere_contracts.Base.{
  ℕ, List, [], ◌∷◌, Result, ok, ◌>>=◌, ok_or, checked_add, checked_mul, checked_sub, saturating_sub,
  try_into,
}
use stratosphere_contracts.Pool.Data.{
  ContractError, PoolFee, PoolType, constant_product, stable_swap, External, std_error, panic,
  overflow_error, swap_overflow_error, pool_has_no_assets,
}
use stratosphere_contracts.Pool.Stable.{
  decimal_with_precision, to_uint256_with_precision, calculate_stableswap_y, simulate,
}

pub record FeesComputation : Type 0 where
  pub swap_fee_amount : ℕ
  pub protocol_fee_amount : ℕ
  pub burn_fee_amount : ℕ
  pub extra_fees_amount : ℕ

-- `to_simulation_response` keeps every field, so `SimulationResponse` is this type too.
pub record SwapComputation : Type 0 where
  pub return_amount : ℕ
  pub spread_amount : ℕ
  pub swap_fee_amount : ℕ
  pub protocol_fee_amount : ℕ
  pub burn_fee_amount : ℕ
  pub extra_fees_amount : ℕ

-- The loop over `extra_fees`, from what has been summed so far; an empty list gives zero.
unfoldable pub sum_extra_fees : External → ℕ → ℕ → List ℕ → Result ContractError ℕ
sum_extra_fees x amount extra_fees_amount [] = ok extra_fees_amount
sum_extra_fees x amount extra_fees_amount (extra_fee ∷ extra_fees) = do
  fee ← ok_or (x.compute extra_fee amount) std_error
  sum ← ok_or (checked_add 256 extra_fees_amount fee) overflow_error
  sum_extra_fees x amount sum extra_fees

unfoldable pub compute_fees : External → PoolFee → ℕ → Result ContractError FeesComputation
unfolding sum_extra_fees
compute_fees x pool_fees amount = do
  swap_fee ← ok_or (x.compute pool_fees.swap_fee amount) std_error
  protocol_fee ← ok_or (x.compute pool_fees.protocol_fee amount) std_error
  burn_fee ← ok_or (x.compute pool_fees.burn_fee amount) std_error
  extra_fees ← sum_extra_fees x amount 0 pool_fees.extra_fees
  ok record {
    swap_fee_amount = swap_fee;
    protocol_fee_amount = protocol_fee;
    burn_fee_amount = burn_fee;
    extra_fees_amount = extra_fees;
  }

unfoldable pub get_swap_computation : ℕ → ℕ → FeesComputation → Result ContractError SwapComputation
get_swap_computation gross_amount spread_amount fees = do
  less_swap ← ok_or (checked_sub gross_amount fees.swap_fee_amount) overflow_error
  less_protocol ← ok_or (checked_sub less_swap fees.protocol_fee_amount) overflow_error
  less_burn ← ok_or (checked_sub less_protocol fees.burn_fee_amount) overflow_error
  net_amount ← ok_or (checked_sub less_burn fees.extra_fees_amount) overflow_error
  return_amount ← ok_or (try_into 128 net_amount) swap_overflow_error
  spread ← ok_or (try_into 128 spread_amount) swap_overflow_error
  swap_fee ← ok_or (try_into 128 fees.swap_fee_amount) swap_overflow_error
  protocol_fee ← ok_or (try_into 128 fees.protocol_fee_amount) swap_overflow_error
  burn_fee ← ok_or (try_into 128 fees.burn_fee_amount) swap_overflow_error
  extra_fees ← ok_or (try_into 128 fees.extra_fees_amount) swap_overflow_error
  ok record {
    return_amount = return_amount;
    spread_amount = spread;
    swap_fee_amount = swap_fee;
    protocol_fee_amount = protocol_fee;
    burn_fee_amount = burn_fee;
    extra_fees_amount = extra_fees;
  }

-- The arms of `compute_swap` up to the fees: the return amount before them, and the spread.
unfoldable pub return_constant_product : External → ℕ → ℕ → ℕ → Result ContractError ℕ
return_constant_product x offer_pool ask_pool offer_amount = do
  product ← ok_or (checked_mul 256 ask_pool offer_amount) panic
  sum ← ok_or (checked_add 256 offer_pool offer_amount) panic
  price ← ok_or (x.decimal256.from_ratio product sum) panic
  ok (x.decimal256.to_uint_floor price)

unfoldable pub quote_constant_product : External → ℕ → ℕ → ℕ → Result ContractError (ℕ × ℕ)
unfolding return_constant_product
quote_constant_product x offer_pool ask_pool offer_amount = do
  return_amount ← return_constant_product x offer_pool ask_pool offer_amount
  exchange_rate ← ok_or (x.decimal256.from_ratio ask_pool offer_pool) pool_has_no_assets
  offer ← ok_or (x.decimal256.from_ratio offer_amount 1) panic
  ideal ← ok_or (x.decimal256.checked_mul offer exchange_rate) overflow_error
  spread_amount ←
      ok_or (checked_sub (x.decimal256.to_uint_floor ideal) return_amount) overflow_error
  ok (return_amount, spread_amount)

unfoldable pub quote_stable_swap :
    External → ℕ → ℕ → ℕ → ℕ → ℕ → ℕ → ℕ → Result ContractError (ℕ × ℕ)
quote_stable_swap x n_coins amp offer_balance ask_balance amount offer_precision ask_precision = do
  offer_pool ← decimal_with_precision x offer_balance offer_precision
  ask_pool ← decimal_with_precision x ask_balance ask_precision
  offer_amount ← decimal_with_precision x amount offer_precision
  new_pool ←
      calculate_stableswap_y x n_coins offer_pool ask_pool offer_amount amp ask_precision simulate
  ask ← to_uint256_with_precision ask_pool ask_precision
  return_amount ← ok_or (checked_sub ask new_pool) overflow_error
  offer ← to_uint256_with_precision offer_amount ask_precision
  ok (return_amount, saturating_sub offer return_amount)

unfoldable pub quote : External → ℕ → ℕ → ℕ → ℕ → PoolType → ℕ → ℕ → Result ContractError (ℕ × ℕ)
quote x n_coins offer_pool ask_pool offer_amount constant_product offer_precision ask_precision =
    quote_constant_product x offer_pool ask_pool offer_amount
quote x n_coins offer_pool ask_pool offer_amount (stable_swap amp) offer_precision ask_precision =
    quote_stable_swap x n_coins amp offer_pool ask_pool offer_amount offer_precision ask_precision

-- Both arms of the source end with the same fees and the same subtraction.
unfoldable pub compute_swap :
    External → ℕ → ℕ → ℕ → ℕ → PoolFee → PoolType → ℕ → ℕ → Result ContractError SwapComputation
compute_swap x n_coins offer_pool ask_pool offer_amount fees swap_type offer_precision
      ask_precision =
    do
      quoted ←
          quote x n_coins offer_pool ask_pool offer_amount swap_type offer_precision ask_precision
      computed ← compute_fees x fees quoted.0
      get_swap_computation quoted.0 quoted.1 computed
