-- ===== src/Pool/Swaps.antt =====
-- Swaps: swap/perform_swap.rs and swap/commands.rs, get_asset_indexes_in_pool of helpers.rs, and
-- query_simulation of queries.rs (pool-manager/src).
use stratosphere_contracts.Base.{
  ℕ, not, Option, none, some, List, [], ◌∷◌, ◌++◌, leb, ◌==◌, if◌then◌else◌, any, all, length,
  position, get_elem?, set, min, Result, ok, ◌>>=◌, ◌>>◌, ensure, ok_or, unwrap_or, checked_add,
  checked_sub, saturating_sub,
}
use stratosphere_contracts.Base.Text.{Text, codes, text_eq}
use stratosphere_contracts.Base.Coins.{Coin, MessageInfo}
use stratosphere_contracts.Pool.Data.{
  ContractError, PoolInfo, Message, send, burn, External, std_error, payment_error, same_asset,
  overflow_error, panic, operation_disabled, asset_mismatch,
}
use stratosphere_contracts.Pool.Storage.{Storage, get_pool_by_identifier, save_pool}
use stratosphere_contracts.Pool.Compute.{SwapComputation, compute_swap}

-- The result's tuple, by its names in the source.
pub record Indexes : Type 0 where
  pub offer_asset_in_pool : Coin
  pub ask_asset_in_pool : Coin
  pub offer_index : ℕ
  pub ask_index : ℕ
  pub offer_decimal : ℕ
  pub ask_decimal : ℕ

unfoldable pub get_asset_indexes_in_pool : PoolInfo → Text → Text → Result ContractError Indexes
get_asset_indexes_in_pool pool_info offer_asset_denom ask_asset_denom = do
  offer_index ←
      ok_or (position (λ c. text_eq offer_asset_denom c.denom) pool_info.assets) asset_mismatch
  ask_index ←
      ok_or (position (λ c. text_eq ask_asset_denom c.denom) pool_info.assets) asset_mismatch
  ensure (not (offer_index == ask_index)) asset_mismatch
  offer_asset_in_pool ← ok_or (get_elem? pool_info.assets offer_index) panic
  ask_asset_in_pool ← ok_or (get_elem? pool_info.assets ask_index) panic
  offer_decimal ← ok_or (get_elem? pool_info.asset_decimals offer_index) panic
  ask_decimal ← ok_or (get_elem? pool_info.asset_decimals ask_index) panic
  ok record {
    offer_asset_in_pool = offer_asset_in_pool;
    ask_asset_in_pool = ask_asset_in_pool;
    offer_index = offer_index;
    ask_index = ask_index;
    offer_decimal = offer_decimal;
    ask_decimal = ask_decimal;
  }

-- `DEFAULT_SLIPPAGE` and `MAX_ALLOWED_SLIPPAGE`, in atomics
abbrev pub default_slippage : ℕ
default_slippage = 10000000000000000

abbrev pub max_allowed_slippage : ℕ
max_allowed_slippage = 500000000000000000

unfoldable pub spread_limit : Option ℕ → ℕ
spread_limit max_spread = min (unwrap_or max_spread default_slippage) max_allowed_slippage

unfoldable pub assert_max_spread :
    External → Option ℕ → Option ℕ → ℕ → ℕ → ℕ → Result ContractError (Unit {0})
unfolding spread_limit
assert_max_spread x (some belief_price) max_spread offer_amount return_amount spread_amount = do
  offer ← ok_or (x.decimal.from_ratio offer_amount 1) panic
  inverse ← ok_or (x.decimal.inv belief_price) std_error
  expected ← ok_or (x.decimal.checked_mul offer inverse) std_error
  let expected_return = x.decimal.to_uint_floor expected
  let missing = saturating_sub expected_return return_amount
  if leb expected_return return_amount then ok tt else do
    ratio ← ok_or (x.decimal256.from_ratio missing expected_return) panic
    ensure (leb ratio (spread_limit max_spread)) std_error
assert_max_spread x none max_spread offer_amount return_amount spread_amount = do
  total ← ok_or (checked_add 128 return_amount spread_amount) panic
  ratio ← ok_or (x.decimal256.from_ratio spread_amount total) panic
  ensure (leb ratio (spread_limit max_spread)) std_error

unfoldable pub aggregate_outgoing_fees : SwapComputation → Result ContractError ℕ
aggregate_outgoing_fees response =
    ok_or (checked_add 128 response.protocol_fee_amount response.burn_fee_amount) overflow_error

-- The pool's assets after the swap: a read and a write at `offer_index`, then at `ask_index`.
unfoldable pub move_balances : List Coin → ℕ → ℕ → ℕ → ℕ → ℕ → Result ContractError (List Coin)
move_balances assets offer_index ask_index offer_amount return_amount outgoing_fees = do
  offer_asset ← ok_or (get_elem? assets offer_index) panic
  raised ← ok_or (checked_add 128 offer_asset.amount offer_amount) overflow_error
  let with_offer = set assets offer_index (record offer_asset { amount = raised })
  ask_asset ← ok_or (get_elem? with_offer ask_index) panic
  less_return ← ok_or (checked_sub ask_asset.amount return_amount) overflow_error
  lowered ← ok_or (checked_sub less_return outgoing_fees) overflow_error
  ok (set with_offer ask_index (record ask_asset { amount = lowered }))

pub record SwapResult : Type 0 where
  pub return_asset : Coin
  pub burn_fee_asset : Coin
  pub protocol_fee_asset : Coin
  pub swap_fee_asset : Coin
  pub extra_fees_asset : Coin
  pub pool_info : PoolInfo
  pub spread_amount : ℕ

-- The read-only first half of `perform_swap`, which `query_simulation` repeats: the two assets and
-- the computed amounts.
unfoldable pub compute_pool_swap :
    External → PoolInfo → Coin → Text → Result ContractError (Indexes × SwapComputation)
unfolding get_asset_indexes_in_pool
compute_pool_swap x pool_info offer_asset ask_asset_denom = do
  found ← get_asset_indexes_in_pool pool_info offer_asset.denom ask_asset_denom
  swap_computation ←
      compute_swap x (length pool_info.assets) found.offer_asset_in_pool.amount
        found.ask_asset_in_pool.amount offer_asset.amount pool_info.pool_fees pool_info.pool_type
        found.offer_decimal found.ask_decimal
  ok (found, swap_computation)

unfoldable pub perform_swap :
    External
    → Storage
    → Coin
    → Text
    → Text
    → Option ℕ
    → Option ℕ
    → Result ContractError (Storage × SwapResult)
unfolding get_pool_by_identifier save_pool compute_pool_swap assert_max_spread move_balances
    aggregate_outgoing_fees
perform_swap x s offer_asset ask_asset_denom pool_identifier belief_price max_spread = do
  pool_info ← get_pool_by_identifier s pool_identifier
  computed ← compute_pool_swap x pool_info offer_asset ask_asset_denom
  let found = computed.0
  let amounts = computed.1
  let denom = found.ask_asset_in_pool.denom
  assert_max_spread x belief_price max_spread offer_asset.amount amounts.return_amount
      amounts.spread_amount
  outgoing_fees ← aggregate_outgoing_fees amounts
  assets ←
      move_balances pool_info.assets found.offer_index found.ask_index offer_asset.amount
        amounts.return_amount outgoing_fees
  let new_pool = record pool_info { assets = assets }
  s ← save_pool pool_identifier new_pool s
  ok (
    s,
    record {
      return_asset = record { denom = denom; amount = amounts.return_amount };
      burn_fee_asset = record { denom = denom; amount = amounts.burn_fee_amount };
      protocol_fee_asset = record { denom = denom; amount = amounts.protocol_fee_amount };
      swap_fee_asset = record { denom = denom; amount = amounts.swap_fee_amount };
      extra_fees_asset = record { denom = denom; amount = amounts.extra_fees_amount };
      pool_info = new_pool;
      spread_amount = amounts.spread_amount;
    },
  )

-- A message for a coin of a positive amount.
unfoldable pub nonzero : Coin → Message → List Message
nonzero c m = if c.amount == 0 then [] else m ∷ []

unfoldable pub send_coin : Text → Coin → List Message
unfolding nonzero
send_coin to c = nonzero c (send to (c ∷ []))

unfoldable pub burn_coin : Coin → List Message
unfolding nonzero
burn_coin c = nonzero c (burn c)

-- Both arguments `info.sender` and `sender` of the source's one call are the message's sender.
unfoldable pub swap :
    External
    → MessageInfo
    → Text
    → Option ℕ
    → Option ℕ
    → Option Text
    → Text
    → Storage
    → Result ContractError (Storage × List Message)
unfolding get_pool_by_identifier perform_swap send_coin burn_coin
swap x info ask_asset_denom belief_price max_spread receiver pool_identifier s = do
  ensure s.config.feature_toggle.swaps_enabled (operation_disabled (codes "swap"))
  offer_asset ← ok_or (x.one_coin info.funds) payment_error
  ensure (not (text_eq offer_asset.denom ask_asset_denom)) same_asset
  pool ← get_pool_by_identifier s pool_identifier
  ensure
      (all (λ asset. any (λ c. text_eq c.denom asset) pool.assets)
        (ask_asset_denom ∷ offer_asset.denom ∷ []))
      asset_mismatch
  swapped ← perform_swap x s offer_asset ask_asset_denom pool_identifier belief_price max_spread
  let result = swapped.1
  ok (
    swapped.0,
    send_coin (x.validate_addr_or_default receiver info.sender) result.return_asset
        ++ burn_coin result.burn_fee_asset
        ++ send_coin s.config.fee_collector_addr result.protocol_fee_asset,
  )

unfoldable pub query_simulation :
    External → Storage → Coin → Text → Text → Result ContractError SwapComputation
unfolding get_pool_by_identifier compute_pool_swap
query_simulation x s offer_asset ask_asset_denom pool_identifier = do
  pool_info ← get_pool_by_identifier s pool_identifier
  computed ← compute_pool_swap x pool_info offer_asset ask_asset_denom
  ok computed.1
