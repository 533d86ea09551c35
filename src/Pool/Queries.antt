-- ===== src/Pool/Queries.antt =====
-- Reverse simulations and listings: queries.rs, and compute_offer_amount of helpers.rs
-- (pool-manager/src).
use stratosphere_contracts.Base.{
  ℕ, ◌-◌, ◌^◌, Option, none, some, List, [], ◌∷◌, ltb, ◌==◌, if◌then◌else◌, length, position,
  get_elem?, min, max, take, head?, Result, ok, err, ◌>>=◌, ok_or, unwrap_or, keep, checked_mul,
  checked_sub, checked_div, checked_multiply_ratio, saturating_sub, try_into,
}
use stratosphere_contracts.Base.Text.{Text, text_eq, text_lt}
use stratosphere_contracts.Base.Coins.{Coin}
use stratosphere_contracts.Base.Dict.{Dict, may_load}
use stratosphere_contracts.Base.Decimals.{one}
use stratosphere_contracts.Pool.Data.{
  ContractError, PoolInfo, PoolFee, constant_product, stable_swap, SwapOperation, Env, External,
  std_error, overflow_error, divide_by_zero_error, conversion_overflow_error, panic, asset_mismatch,
  no_swap_operations_provided,
}
use stratosphere_contracts.Pool.Storage.{Storage, get_pool_by_identifier}
use stratosphere_contracts.Pool.Stable.{
  decimal_with_precision, to_uint256_with_precision, calculate_stableswap_y, reverse_simulate,
}
use stratosphere_contracts.Pool.Compute.{FeesComputation, SwapComputation, compute_fees}
use stratosphere_contracts.Pool.Swaps.{Indexes, get_asset_indexes_in_pool}
use stratosphere_contracts.Pool.Router.{Collected, collect, aggregate_collected}

unfoldable pub query_asset_decimals : Storage → Text → Text → Result ContractError ℕ
query_asset_decimals s pool_identifier denom = do
  pool_info ← get_pool_by_identifier s pool_identifier
  index ← ok_or (position (λ d. text_eq d denom) pool_info.asset_denoms) asset_mismatch
  ok_or (get_elem? pool_info.asset_decimals index) panic

-- A reverse simulation: the offer, and the amounts of a swap that it leads to. The source's
-- `OfferAmountComputation` and `ReverseSimulationResponse` have the same fields.
pub record OfferAmountComputation : Type 0 where
  pub offer_amount : ℕ
  pub spread_amount : ℕ
  pub swap_fee_amount : ℕ
  pub protocol_fee_amount : ℕ
  pub burn_fee_amount : ℕ
  pub extra_fees_amount : ℕ

-- The sum of the fees' shares, from what has been summed so far.
unfoldable pub sum_shares : External → ℕ → List ℕ → Option ℕ
sum_shares x sum [] = some sum
sum_shares x sum (fee ∷ fees) = elim (x.decimal256.checked_add sum (x.to_decimal_256 fee)) [
  | none ↦ none
  | some next ↦ sum_shares x next fees
]

-- The end of a reverse simulation: every amount in 128 bits, an overflow with the given error.
unfoldable pub narrow_amounts :
    ContractError → ℕ → ℕ → FeesComputation → Result ContractError OfferAmountComputation
narrow_amounts problem offer_amount spread_amount fees = do
  offer ← ok_or (try_into 128 offer_amount) problem
  spread ← ok_or (try_into 128 spread_amount) problem
  swap_fee ← ok_or (try_into 128 fees.swap_fee_amount) problem
  protocol_fee ← ok_or (try_into 128 fees.protocol_fee_amount) problem
  burn_fee ← ok_or (try_into 128 fees.burn_fee_amount) problem
  extra_fees ← ok_or (try_into 128 fees.extra_fees_amount) problem
  ok record {
    offer_amount = offer;
    spread_amount = spread;
    swap_fee_amount = swap_fee;
    protocol_fee_amount = protocol_fee;
    burn_fee_amount = burn_fee;
    extra_fees_amount = extra_fees;
  }

-- The source's `StdError` covers the errors of the fees here.
abbrev fees_or_std : Result ContractError FeesComputation → Result ContractError FeesComputation
fees_or_std (ok fees) = ok fees
fees_or_std (err e) = err std_error

unfoldable pub compute_offer_amount :
    External → ℕ → ℕ → ℕ → PoolFee → Result ContractError OfferAmountComputation
unfolding sum_shares narrow_amounts
compute_offer_amount x offer_asset_in_pool ask_asset_in_pool ask_amount pool_fees = do
  fees ←
      ok_or
        (sum_shares x (x.to_decimal_256 pool_fees.swap_fee)
          (pool_fees.protocol_fee ∷ pool_fees.burn_fee ∷ pool_fees.extra_fees))
        std_error
  one_minus_commission ← ok_or (x.decimal256.checked_sub one fees) panic
  inverse ← ok_or (x.decimal256.checked_div one one_minus_commission) panic
  cp ← ok_or (checked_mul 256 offer_asset_in_pool ask_asset_in_pool) panic
  ask ← ok_or (x.decimal256.from_ratio ask_amount 1) panic
  gross ← ok_or (x.decimal256.checked_mul ask inverse) std_error
  let before_commission_deduction = x.decimal256.to_uint_floor gross
  ask_left ← ok_or (checked_sub ask_asset_in_pool before_commission_deduction) std_error
  new_offer_pool ← ok_or (checked_multiply_ratio 256 1 cp ask_left) panic
  offer_amount ← ok_or (checked_sub new_offer_pool offer_asset_in_pool) std_error
  offer ← ok_or (x.decimal256.from_ratio offer_amount 1) panic
  rate ← ok_or (x.decimal256.from_ratio ask_asset_in_pool offer_asset_in_pool) panic
  ideal ← ok_or (x.decimal256.checked_mul offer rate) std_error
  let before_spread_deduction = x.decimal256.to_uint_floor ideal
  computed ← fees_or_std (compute_fees x pool_fees before_commission_deduction)
  narrow_amounts std_error offer_amount
      (saturating_sub before_spread_deduction before_commission_deduction) computed

-- The offer from `max_precision` to its own precision, which is not above it.
unfoldable pub to_offer_precision : ℕ → ℕ → ℕ → Result ContractError ℕ
to_offer_precision max_precision offer_decimal amount =
    if max_precision == offer_decimal
    then ok amount
    else if ltb max_precision offer_decimal
    then (do
      factor ← ok_or (try_into 128 (10 ^ (offer_decimal - max_precision))) panic
      ok_or (checked_mul 128 amount factor) overflow_error)
    else (do
      factor ← ok_or (try_into 128 (10 ^ (max_precision - offer_decimal))) panic
      ok_or (checked_div amount factor) divide_by_zero_error)

-- `Decimal256::one()` less every fee, one after the other, and its inverse or one.
unfoldable pub inverse_of_fees : External → PoolFee → Result ContractError ℕ
unfolding sum_shares
inverse_of_fees x pool_fees = do
  extra_fees ← ok_or (sum_shares x 0 pool_fees.extra_fees) overflow_error
  a ← ok_or (x.decimal256.checked_sub one (x.to_decimal_256 pool_fees.protocol_fee)) overflow_error
  b ← ok_or (x.decimal256.checked_sub a (x.to_decimal_256 pool_fees.swap_fee)) overflow_error
  c ← ok_or (x.decimal256.checked_sub b (x.to_decimal_256 pool_fees.burn_fee)) overflow_error
  d ← ok_or (x.decimal256.checked_sub c extra_fees) overflow_error
  ok (unwrap_or (x.decimal256.inv d) one)

unfoldable pub reverse_stable_swap :
    External → ℕ → PoolInfo → Indexes → ℕ → Result ContractError OfferAmountComputation
unfolding inverse_of_fees to_offer_precision narrow_amounts
reverse_stable_swap x amp pool_info found ask_amount = do
  offer_pool ← decimal_with_precision x found.offer_asset_in_pool.amount found.offer_decimal
  ask_pool ← decimal_with_precision x found.ask_asset_in_pool.amount found.ask_decimal
  inverse ← inverse_of_fees x pool_info.pool_fees
  ask ← decimal_with_precision x ask_amount found.ask_decimal
  before_fees ← ok_or (x.decimal256.checked_mul inverse ask) overflow_error
  before_fees_offer ← to_uint256_with_precision before_fees found.offer_decimal
  before_fees_ask ← to_uint256_with_precision before_fees found.ask_decimal
  let max_precision = max found.offer_decimal found.ask_decimal
  new_offer_pool_amount ←
      calculate_stableswap_y x (length pool_info.assets) offer_pool ask_pool before_fees amp
        max_precision reverse_simulate
  old_amount ← to_uint256_with_precision offer_pool max_precision
  old_offer_pool_amount ← ok_or (try_into 128 old_amount) conversion_overflow_error
  difference ← ok_or (checked_sub new_offer_pool_amount old_offer_pool_amount) overflow_error
  offer_amount ← to_offer_precision max_precision found.offer_decimal difference
  before_fees_128 ← ok_or (try_into 128 before_fees_offer) conversion_overflow_error
  fees ← compute_fees x pool_info.pool_fees before_fees_ask
  narrow_amounts conversion_overflow_error offer_amount
      (saturating_sub offer_amount before_fees_128) fees

unfoldable pub query_reverse_simulation :
    External → Storage → Coin → Text → Text → Result ContractError OfferAmountComputation
unfolding compute_offer_amount reverse_stable_swap
query_reverse_simulation x s ask_asset offer_asset_denom pool_identifier = do
  pool_info ← get_pool_by_identifier s pool_identifier
  found ← get_asset_indexes_in_pool pool_info offer_asset_denom ask_asset.denom
  elim pool_info.pool_type [
    | constant_product ↦
        compute_offer_amount x found.offer_asset_in_pool.amount found.ask_asset_in_pool.amount
          ask_asset.amount pool_info.pool_fees
    | stable_swap amp ↦ reverse_stable_swap x amp pool_info found ask_asset.amount
  ]

-- The amounts of one step back, with the names of a simulation's.
unfoldable pub as_simulation : OfferAmountComputation → SwapComputation
as_simulation res = record {
  return_amount = res.offer_amount;
  spread_amount = res.spread_amount;
  swap_fee_amount = res.swap_fee_amount;
  protocol_fee_amount = res.protocol_fee_amount;
  burn_fee_amount = res.burn_fee_amount;
  extra_fees_amount = res.extra_fees_amount;
}

-- The loop runs from the last operation to the first: what comes later is simulated first.
unfoldable pub reverse_in_turn :
    External → Storage → List SwapOperation → Collected → Result ContractError Collected
unfolding as_simulation
reverse_in_turn x s [] c = ok c
reverse_in_turn x s (operation ∷ operations) c = do
  later ← reverse_in_turn x s operations c
  res ←
      query_reverse_simulation x s
        (record { denom = operation.token_out_denom; amount = later.amount })
        operation.token_in_denom operation.pool_identifier
  ok (collect operation.token_out_denom res.offer_amount (as_simulation res) later)

unfoldable pub reverse_simulate_swap_operations :
    External → Storage → ℕ → List SwapOperation → Result ContractError Collected
unfolding reverse_in_turn
reverse_simulate_swap_operations x s ask_amount operations = do
  _ ← ok_or (head? operations) no_swap_operations_provided
  collected ← reverse_in_turn x s operations record {
    amount = ask_amount;
    spreads = [];
    swap_fees = [];
    protocol_fees = [];
    burn_fees = [];
    extra_fees = [];
  }
  aggregate_collected x collected

abbrev max_limit : ℕ
max_limit = 100

abbrev default_pool_limit : ℕ
default_pool_limit = 10

-- Each pool with the supply of its LP token.
unfoldable pub with_total_share : Env → Dict PoolInfo → Result ContractError (List (PoolInfo × ℕ))
with_total_share env [] = ok []
with_total_share env ((k, pool) ∷ pools) = do
  total_share ← ok_or (env.total_share pool.lp_denom) std_error
  rest ← with_total_share env pools
  ok ((pool, total_share) ∷ rest)

-- The entries after a key, in the order of the storage.
unfoldable pub after_key : Option Text → Dict PoolInfo → Dict PoolInfo
after_key none pools = pools
after_key (some start) pools = keep (λ e. text_lt start e.0) pools

-- The bound that `calc_range_start_string` gives is an argument: it is not the text itself.
unfoldable pub get_pools :
    Env
    → Storage
    → Option Text
    → Option Text
    → Option ℕ
    → Result ContractError (List (PoolInfo × ℕ))
unfolding with_total_share after_key
get_pools env s (some pool_identifier) start limit = do
  pool ← ok_or (may_load pool_identifier s.pools) std_error
  total_share ← ok_or (env.total_share pool.lp_denom) std_error
  ok ((pool, total_share) ∷ [])
get_pools env s none start limit =
    with_total_share env
      (take (min (unwrap_or limit default_pool_limit) max_limit) (after_key start s.pools))
