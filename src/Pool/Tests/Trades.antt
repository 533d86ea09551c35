-- ===== src/Pool/Tests/Trades.antt =====
-- Swaps and routes at concrete input (pool-manager/src).
use stratosphere_contracts.Base.{
  suc, ◌+◌, ◌-◌, ◌*◌, ◌≤◌, ◌<◌, ◌≡◌, refl, true, none, some, List, [], ◌∷◌, ◌++◌, ◌&&◌, not,
  is_empty, is_ok, Result, ok, err,
}
use stratosphere_contracts.Base.Text.{codes, text_eq}
use stratosphere_contracts.Base.Coins.{amount_of}
use stratosphere_contracts.Base.Dict.{may_load, save, replace, insert_in_order}
use stratosphere_contracts.Base.Decimals.{one}
use stratosphere_contracts.Pool.Data.{
  ContractError, Message, SwapOperation, constant_product, LiquidityProvisionData,
  SingleSideLiquidityProvisionBuffer, swap_and_reply,
}
use stratosphere_contracts.Pool.Storage.{Storage, get_pool_by_identifier, save_pool}
use stratosphere_contracts.Pool.Compute.{
  SwapComputation, sum_extra_fees, compute_fees, get_swap_computation, return_constant_product,
  quote_constant_product, quote, compute_swap,
}
use stratosphere_contracts.Pool.Swaps.{
  SwapResult, get_asset_indexes_in_pool, spread_limit, assert_max_spread, aggregate_outgoing_fees,
  move_balances, compute_pool_swap, perform_swap, nonzero, send_coin, burn_coin, query_simulation,
}
use stratosphere_contracts.Pool.Router.{
  Collected, follow_operations, assert_operations, swap_in_turn, assert_minimum_receive,
  execute_swap_operations, push_coin, collect, simulate_in_turn, aggregate_collected,
  simulate_swap_operations,
}
use stratosphere_contracts.Pool.Books.{held, paid, sent_to}
use stratosphere_contracts.Pool.Constant.{gross, compute_swap-gross, compute_swap-product}
use stratosphere_contracts.Pool.Covered.Routes.{
  execute_swap_operations-held, execute_swap_operations-minimum,
}
use stratosphere_contracts.Pool.Simulated.{
  distinct_pools, amounts_of, query_simulation-perform_swap, execute_swap_operations-simulated,
}
use stratosphere_contracts.Pool.Liquidity.{provide_single_asset}
use stratosphere_contracts.Pool.OneSided.{provide_single_asset-perform_swap}
use stratosphere_contracts.Pool.Guards.{perform_swap-spread}
use stratosphere_contracts.Pool.Newton.{consecutive, assert_operations-consecutive}
use stratosphere_contracts.Pool.Tests.World.{
  external, external-Lawful, coin, fees, pool, state, env, alice, route, answer,
}

abbrev nothing : SwapComputation
nothing = record {
  return_amount = 0;
  spread_amount = 0;
  swap_fee_amount = 0;
  protocol_fee_amount = 0;
  burn_fee_amount = 0;
  extra_fees_amount = 0;
}

abbrev given : SwapComputation
given = elim (compute_swap external 2 1000000 2000000 1000 fees constant_product 6 6) [
  | ok c ↦ c
  | err e ↦ nothing
]

abbrev one_trade : Result ContractError (Storage × SwapResult)
one_trade = perform_swap external state (coin (codes "a") 1000) (codes "b") (codes "o.ab") none none

abbrev traded : Storage
traded = elim one_trade [ ok out ↦ out.0 | err e ↦ state ]

abbrev nobody : SwapResult
nobody = record {
  return_asset = coin [] 0;
  burn_fee_asset = coin [] 0;
  protocol_fee_asset = coin [] 0;
  swap_fee_asset = coin [] 0;
  extra_fees_asset = coin [] 0;
  pool_info = record {
    pool_identifier = [];
    asset_denoms = [];
    lp_denom = [];
    asset_decimals = [];
    assets = [];
    pool_type = constant_product;
    pool_fees = fees;
  };
  spread_amount = 0;
}

abbrev trade : SwapResult
trade = elim one_trade [ ok out ↦ out.1 | err e ↦ nobody ]

abbrev routing : Result ContractError (Storage × List Message)
routing =
    execute_swap_operations external (alice (coin (codes "a") 1000 ∷ [])) route (some 900) none none
      state

abbrev routed : Storage × List Message
routed = answer state [] routing

abbrev forecast : Collected
forecast = elim (simulate_swap_operations external state 1000 route) [
  | ok c ↦ c
  | err e ↦ record {
    amount = 0;
    spreads = [];
    swap_fees = [];
    protocol_fees = [];
    burn_fees = [];
    extra_fees = [];
  }
]

computed :
    (compute_swap external 2 1000000 2000000 1000 fees constant_product 6 6 ≡ ok given)
    × (one_trade ≡ ok (traded, trade))
    × (routing ≡ ok routed)
    × (simulate_swap_operations external state 1000 route ≡ ok forecast)
    × (distinct_pools route ≡ true)
    × (forecast.amount ≡ 1980)
    × (external.must_pay (coin (codes "a") 1000 ∷ []) (codes "a") ≡ some 1000)
unfolding text_eq may_load save replace insert_in_order get_pool_by_identifier save_pool
    sum_extra_fees compute_fees get_swap_computation return_constant_product quote_constant_product
    quote compute_swap get_asset_indexes_in_pool spread_limit assert_max_spread
    aggregate_outgoing_fees move_balances compute_pool_swap perform_swap nonzero send_coin burn_coin
    query_simulation follow_operations assert_operations swap_in_turn assert_minimum_receive
    execute_swap_operations push_coin collect simulate_in_turn aggregate_collected
    simulate_swap_operations distinct_pools
computed = (refl, refl, refl, refl, refl, refl, refl)

compute_swap-gross_example :
    quote external 2 1000000 2000000 1000 constant_product 6 6
    ≡ ok (gross given, given.spread_amount)
compute_swap-gross_example =
    compute_swap-gross external 2 1000000 2000000 1000 fees constant_product 6 6 given (computed.0)

compute_swap-product_example :
    1000000 * 2000000
    ≤ (1000000 + 1000)
      * (2000000 - (given.return_amount + given.protocol_fee_amount + given.burn_fee_amount))
compute_swap-product_example =
    compute_swap-product external external-Lawful.decimal256_law 2 1000000 2000000 1000 fees 6 6
      given (computed.0)

query_simulation-perform_swap_example :
    query_simulation external state (coin (codes "a") 1000) (codes "b") (codes "o.ab")
    ≡ ok (amounts_of trade)
query_simulation-perform_swap_example =
    query_simulation-perform_swap external state (coin (codes "a") 1000) (codes "b") (codes "o.ab")
      none none traded trade (computed.1)

-- A deposit of 2000 of the first asset alone, and the swap of half of it.
abbrev provision : LiquidityProvisionData
provision = record {
  max_spread = none;
  slippage_tolerance = none;
  pool_identifier = codes "o.ab";
  unlocking_duration = none;
  lock_position_identifier = none;
}

abbrev deposited : Storage
deposited =
    (answer state [] (
      provide_single_asset external env (codes "alice") provision
        (pool (codes "o.ab") (codes "a") 1000000 (codes "b") 2000000) (coin (codes "a") 2000)
        state)).0

abbrev kept : SingleSideLiquidityProvisionBuffer
kept = record {
  receiver = codes "alice";
  expected_offer_asset_balance_in_contract = coin (codes "a") 5000000;
  expected_ask_asset_balance_in_contract = coin (codes "b") 4999998;
  offer_asset_half = coin (codes "a") 1000;
  expected_ask_asset = coin (codes "b") 1991;
  liquidity_provision_data = provision;
}

abbrev halved : Storage × SwapResult
halved =
    elim (perform_swap external deposited (coin (codes "a") 1000) (codes "b") (codes "o.ab") none
      none) [ ok out ↦ out | err e ↦ (state, nobody) ]

single_deposit :
    (provide_single_asset external env
        (codes "alice")
        provision
        (pool (codes "o.ab") (codes "a") 1000000 (codes "b") 2000000)
        (coin (codes "a") 2000)
        state
      ≡ ok (
        deposited,
        swap_and_reply (codes "o.ab") (codes "b") none (coin (codes "a") 1000 ∷ []) ∷ [],
      ))
    × (deposited.single_side_liquidity_provision_buffer ≡ some kept)
    × (perform_swap external deposited (coin (codes "a") 1000) (codes "b") (codes "o.ab") none none
        ≡ ok halved)
unfolding text_eq may_load save replace insert_in_order get_pool_by_identifier save_pool
    sum_extra_fees compute_fees get_swap_computation return_constant_product quote_constant_product
    quote compute_swap get_asset_indexes_in_pool spread_limit assert_max_spread
    aggregate_outgoing_fees move_balances compute_pool_swap perform_swap query_simulation
    provide_single_asset
single_deposit = (refl, refl, refl)

provide_single_asset-perform_swap_example :
    (kept.offer_asset_half ≡ coin (codes "a") 1000)
    × (kept.expected_ask_asset ≡ halved.1.return_asset)
provide_single_asset-perform_swap_example =
    provide_single_asset-perform_swap external env (codes "alice") provision
      (pool (codes "o.ab") (codes "a") 1000000 (codes "b") 2000000) (coin (codes "a") 2000) state
      deposited (halved.0) (coin (codes "a") 1000) (codes "b") (codes "o.ab") none kept (halved.1)
      (single_deposit.0) (single_deposit.1) (single_deposit.2)

execute_swap_operations-held_example :
    held (codes "b") (routed.0) + paid [] (codes "b") (routed.1)
    ≡ held (codes "b") state + amount_of (codes "b") (coin (codes "a") 1000 ∷ [])
execute_swap_operations-held_example =
    execute_swap_operations-held external external-Lawful (alice (coin (codes "a") 1000 ∷ [])) route
      (some 900) none none state (routed.0) (routed.1) [] (codes "b") (computed.2)

abbrev first_hop : SwapOperation
first_hop = record {
  token_in_denom = codes "a";
  token_out_denom = codes "b";
  pool_identifier = codes "o.ab";
}

abbrev last_hop : SwapOperation
last_hop = record {
  token_in_denom = codes "b";
  token_out_denom = codes "c";
  pool_identifier = codes "o.bc";
}

execute_swap_operations-minimum_example : 900 ≤ sent_to (codes "alice") (codes "c") (routed.1)
execute_swap_operations-minimum_example =
    execute_swap_operations-minimum external (alice (coin (codes "a") 1000 ∷ [])) route 900 none
      none state (routed.0) (routed.1) last_hop (computed.2) refl

execute_swap_operations-simulated_example :
    (fees : List Message) × (routed.1
      ≡ send_coin (codes "alice") (coin (codes "c") forecast.amount) ++ fees)
execute_swap_operations-simulated_example =
    execute_swap_operations-simulated external (alice (coin (codes "a") 1000 ∷ [])) route (some 900)
      none none state (routed.0) (routed.1) first_hop last_hop 1000 forecast (computed.2)
      (computed.4) refl refl (computed.6) (computed.3)

perform_swap-spread_example :
    trade.spread_amount * one
    < suc (spread_limit none) * (trade.return_asset.amount + trade.spread_amount)
perform_swap-spread_example =
    perform_swap-spread external external-Lawful state (coin (codes "a") 1000) (codes "b")
      (codes "o.ab") none traded trade (computed.1)

assert_operations-consecutive_example :
    is_ok (assert_operations route) ≡ not (is_empty route) && consecutive route
assert_operations-consecutive_example = assert_operations-consecutive route
