-- ===== src/Pool/Router.antt =====
-- The router: router/commands.rs, and simulate_swap_operations of queries.rs (pool-manager/src).
use stratosphere_contracts.Base.{
  ℕ, Option, none, some, List, [], ◌∷◌, ◌++◌, ltb, if◌then◌else◌, head?, last?, Result, ok, err,
  ◌>>=◌, ◌>>◌, ensure, ok_or,
}
use stratosphere_contracts.Base.Text.{Text, codes, text_eq}
use stratosphere_contracts.Base.Coins.{Coin, MessageInfo}
use stratosphere_contracts.Pool.Data.{
  ContractError, SwapOperation, Message, External, std_error, payment_error, operation_disabled,
  no_swap_operations_provided, non_consecutive_swap_operations, minimum_receive_assertion,
}
use stratosphere_contracts.Pool.Storage.{Storage}
use stratosphere_contracts.Pool.Compute.{SwapComputation}
use stratosphere_contracts.Pool.Swaps.{perform_swap, query_simulation, send_coin, burn_coin}

-- The loop of `assert_operations`.
unfoldable pub follow_operations : Text → List SwapOperation → Result ContractError (Unit {0})
follow_operations previous_output [] = ok tt
follow_operations previous_output (operation ∷ operations) = do
  ensure (text_eq operation.token_in_denom previous_output)
      (non_consecutive_swap_operations previous_output operation.token_in_denom)
  follow_operations operation.token_out_denom operations

unfoldable pub assert_operations : List SwapOperation → Result ContractError (Unit {0})
unfolding follow_operations
assert_operations operations = do
  first ← ok_or (head? operations) no_swap_operations_provided
  follow_operations first.token_in_denom operations

-- The loop over the operations: the state, the output of the last swap, and the fee messages.
unfoldable pub swap_in_turn :
    External
    → Text
    → Option ℕ
    → List SwapOperation
    → Storage
    → Coin
    → List Message
    → Result ContractError (Storage × Coin × List Message)
swap_in_turn x fee_collector max_spread [] s previous_swap_output fee_messages =
    ok (s, previous_swap_output, fee_messages)
swap_in_turn x fee_collector max_spread (operation ∷ operations) s previous_swap_output
      fee_messages =
    do
      swapped ←
          perform_swap x s previous_swap_output operation.token_out_denom operation.pool_identifier
            none max_spread
      let result = swapped.1
      swap_in_turn x fee_collector max_spread operations swapped.0 result.return_asset (
          fee_messages
          ++ burn_coin result.burn_fee_asset
          ++ send_coin fee_collector result.protocol_fee_asset)

-- The minimum amount assertion.
unfoldable pub assert_minimum_receive : Option ℕ → ℕ → Result ContractError (Unit {0})
assert_minimum_receive none amount = ok tt
assert_minimum_receive (some minimum_receive) amount =
    if ltb amount minimum_receive
    then err (minimum_receive_assertion minimum_receive amount)
    else ok tt

unfoldable pub execute_swap_operations :
    External
    → MessageInfo
    → List SwapOperation
    → Option ℕ
    → Option Text
    → Option ℕ
    → Storage
    → Result ContractError (Storage × List Message)
unfolding assert_operations swap_in_turn assert_minimum_receive
execute_swap_operations x info operations minimum_receive receiver max_spread s = do
  ensure s.config.feature_toggle.swaps_enabled (operation_disabled (codes "swap"))
  last ← ok_or (last? operations) no_swap_operations_provided
  first ← ok_or (head? operations) no_swap_operations_provided
  offer_amount ← ok_or (x.must_pay info.funds first.token_in_denom) payment_error
  assert_operations operations
  (s', output, fee_messages) ←
      swap_in_turn x s.config.fee_collector_addr max_spread operations s
        (record { denom = first.token_in_denom; amount = offer_amount }) []
  assert_minimum_receive minimum_receive output.amount
  ok (
    s',
    send_coin (x.validate_addr_or_default receiver info.sender)
          (record { denom = last.token_out_denom; amount = output.amount })
        ++ fee_messages,
  )

-- The lists that `simulate_swap_operations` collects.
pub record Collected : Type 0 where
  pub amount : ℕ
  pub spreads : List Coin
  pub swap_fees : List Coin
  pub protocol_fees : List Coin
  pub burn_fees : List Coin
  pub extra_fees : List Coin

unfoldable pub push_coin : List Coin → ℕ → Text → List Coin
push_coin coins amount denom =
    if ltb 0 amount then coins ++ record { denom = denom; amount = amount } ∷ [] else coins

-- One loop serves both directions: the amounts of a response are pushed, `amount` is the next one.
unfoldable pub collect : Text → ℕ → SwapComputation → Collected → Collected
unfolding push_coin
collect denom amount res c = record {
  amount = amount;
  spreads = push_coin c.spreads res.spread_amount denom;
  swap_fees = push_coin c.swap_fees res.swap_fee_amount denom;
  protocol_fees = push_coin c.protocol_fees res.protocol_fee_amount denom;
  burn_fees = push_coin c.burn_fees res.burn_fee_amount denom;
  extra_fees = push_coin c.extra_fees res.extra_fees_amount denom;
}

unfoldable pub simulate_in_turn :
    External → Storage → List SwapOperation → Collected → Result ContractError Collected
unfolding query_simulation collect
simulate_in_turn x s [] c = ok c
simulate_in_turn x s (operation ∷ operations) c = do
  res ←
      query_simulation x s (record { denom = operation.token_in_denom; amount = c.amount })
        operation.token_out_denom operation.pool_identifier
  simulate_in_turn x s operations (collect operation.token_out_denom res.return_amount res c)

unfoldable pub aggregate_collected : External → Collected → Result ContractError Collected
aggregate_collected x c = do
  spreads ← ok_or (x.aggregate_coins c.spreads) std_error
  swap_fees ← ok_or (x.aggregate_coins c.swap_fees) std_error
  protocol_fees ← ok_or (x.aggregate_coins c.protocol_fees) std_error
  burn_fees ← ok_or (x.aggregate_coins c.burn_fees) std_error
  extra_fees ← ok_or (x.aggregate_coins c.extra_fees) std_error
  ok record {
    amount = c.amount;
    spreads = spreads;
    swap_fees = swap_fees;
    protocol_fees = protocol_fees;
    burn_fees = burn_fees;
    extra_fees = extra_fees;
  }

unfoldable pub simulate_swap_operations :
    External → Storage → ℕ → List SwapOperation → Result ContractError Collected
unfolding simulate_in_turn aggregate_collected
simulate_swap_operations x s offer_amount operations = do
  _ ← ok_or (head? operations) no_swap_operations_provided
  collected ← simulate_in_turn x s operations record {
    amount = offer_amount;
    spreads = [];
    swap_fees = [];
    protocol_fees = [];
    burn_fees = [];
    extra_fees = [];
  }
  aggregate_collected x collected
