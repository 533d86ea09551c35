-- ===== src/Pool/Liquidity.antt =====
-- Liquidity: liquidity/commands.rs (pool-manager/src).
use stratosphere_contracts.Base.{
  ℕ, ◌/◌, Bool, false, ◌&&◌, not, Option, none, some, List, [], ◌∷◌, ◌++◌, ltb, leb, ◌==◌,
  if◌then◌else◌, any, all, keep, find, length, get_elem?, min, is_empty, Result, ok, err, ◌>>=◌,
  ◌>>◌, ensure, ok_or, checked_add, checked_mul, checked_sub, checked_multiply_ratio,
  saturating_sub, try_into,
}
use stratosphere_contracts.Base.Text.{Text, codes, text_eq}
use stratosphere_contracts.Base.Coins.{Coin, MessageInfo}
use stratosphere_contracts.Base.Decimals.{one}
use stratosphere_contracts.Pool.Data.{
  ContractError, PoolInfo, PoolType, constant_product, stable_swap, Message, send, mint_lp_token,
  burn_lp_asset, manage_position, PositionAction, create, expand, swap_and_reply, Env, External,
  std_error, payment_error, unauthorized, overflow_error, panic, conversion_overflow_error,
  empty_assets, empty_pool_for_single_side_liquidity_provision,
  invalid_pool_assets_for_single_side_liquidity_provision, operation_disabled,
  invalid_initial_liquidity_amount, liquidity_share_computation_failed,
  invalid_lp_share_to_withdraw, max_spread_assertion, asset_mismatch, stable_lp_mint_error,
  LiquidityProvisionData,
}
use stratosphere_contracts.Pool.Storage.{Storage, get_pool_by_identifier, save_pool}
use stratosphere_contracts.Pool.Swaps.{query_simulation, aggregate_outgoing_fees}
use stratosphere_contracts.Pool.Slippage.{assert_slippage_tolerance}
use stratosphere_contracts.Pool.Deposits.{compute_d, compute_lp_mint_amount_for_stableswap_deposit}

-- `pool_assets[index].amount` after a change, at the first asset of the denom.
unfoldable pub change_asset : (ℕ → Option ℕ) → Text → List Coin → Result ContractError (List Coin)
change_asset change denom [] = err asset_mismatch
change_asset change denom (asset ∷ assets) =
    let rest = change_asset change denom assets in
    if text_eq asset.denom denom
    then (do
      amount ← ok_or (change asset.amount) overflow_error
      ok (record asset { amount = amount } ∷ assets))
    else (do changed ← rest; ok (asset ∷ changed))

unfoldable pub add_deposits : List Coin → List Coin → Result ContractError (List Coin)
unfolding change_asset
add_deposits [] pool_assets = ok pool_assets
add_deposits (asset ∷ deposits) pool_assets = do
  changed ← change_asset (λ amount. checked_add 128 amount asset.amount) asset.denom pool_assets
  add_deposits deposits changed

unfoldable pub deduct_refunds : List Coin → List Coin → Result ContractError (List Coin)
unfolding change_asset
deduct_refunds [] pool_assets = ok pool_assets
deduct_refunds (refund ∷ refunds) pool_assets = do
  changed ← change_asset (λ amount. checked_sub amount refund.amount) refund.denom pool_assets
  deduct_refunds refunds changed

-- `asset_shares`: what each deposit is of its asset's balance, in LP tokens.
unfoldable pub compute_asset_shares : List Coin → ℕ → List Coin → Result ContractError (List ℕ)
compute_asset_shares pool_assets total_share [] = ok []
compute_asset_shares pool_assets total_share (deposit ∷ deposits) = do
  asset ← ok_or (find (λ c. text_eq c.denom deposit.denom) pool_assets) asset_mismatch
  share ← ok_or (checked_multiply_ratio 128 deposit.amount total_share asset.amount) panic
  shares ← compute_asset_shares pool_assets total_share deposits
  ok (share ∷ shares)

-- The value of a first deposit, before the minimum that stays in the contract.
unfoldable pub first_value : External → PoolType → List Coin → Result ContractError ℕ
first_value x constant_product deposits = do
  deposit_0 ← ok_or (get_elem? deposits 0) panic
  deposit_1 ← ok_or (get_elem? deposits 1) panic
  product ←
      ok_or (checked_mul 256 deposit_0.amount deposit_1.amount) liquidity_share_computation_failed
  ok_or (try_into 128 (x.integer_sqrt product)) panic
first_value x (stable_swap amp) deposits = do
  d ← compute_d amp deposits
  ok_or (try_into 128 d) conversion_overflow_error

unfoldable pub later_share :
    External → PoolType → List Coin → List Coin → ℕ → Result ContractError ℕ
unfolding compute_asset_shares
later_share x constant_product pool_assets deposits total_share = do
  asset_shares ← compute_asset_shares pool_assets total_share deposits
  share_0 ← ok_or (get_elem? asset_shares 0) panic
  share_1 ← ok_or (get_elem? asset_shares 1) panic
  ok (min share_0 share_1)
later_share x (stable_swap amp) pool_assets deposits total_share = do
  new_assets ← ok_or (x.add_coins pool_assets deposits) std_error
  amount ← compute_lp_mint_amount_for_stableswap_deposit amp pool_assets new_assets total_share
  ok_or amount stable_lp_mint_error

-- The share of a deposit, and the messages that come before it is minted.
unfoldable pub compute_share :
    External → Text → PoolInfo → List Coin → ℕ → Result ContractError (ℕ × List Message)
unfolding first_value later_share
compute_share x contract pool deposits total_share =
    if total_share == 0
    then (do
      value ← first_value x pool.pool_type deposits
      let share = saturating_sub value x.minimum_liquidity_amount
      ensure (not (share == 0)) (invalid_initial_liquidity_amount x.minimum_liquidity_amount)
      ok (share, mint_lp_token pool.lp_denom contract x.minimum_liquidity_amount ∷ []))
    else (do share ← later_share x pool.pool_type pool.assets deposits total_share; ok (share, []))

-- The farm manager's answer for the position to lock in: exactly that one, held by the receiver.
unfoldable pub is_own_position : Text → Text → List (Text × Text) → Bool
is_own_position identifier receiver ((found, holder) ∷ []) =
    text_eq found identifier && text_eq holder receiver
is_own_position identifier receiver positions = false

unfoldable pub lock_action : Env → Option Text → ℕ → Text → Result ContractError PositionAction
unfolding is_own_position
lock_action env none unlocking_duration receiver =
    ok (create none unlocking_duration (some receiver))
lock_action env (some position_identifier) unlocking_duration receiver =
    elim (env.positions position_identifier) [
      | some positions ↦ do
        ensure (is_own_position position_identifier receiver positions) unauthorized
        ok (expand position_identifier)
      | none ↦ ok (create (some position_identifier) unlocking_duration (some receiver))
    ]

-- The minting of the share: to the receiver, or to the contract, which locks it.
unfoldable pub hand_out :
    External
    → Env
    → Text
    → Text
    → Text
    → Text
    → ℕ
    → Option ℕ
    → Option Text
    → Result ContractError (List Message)
unfolding lock_action
hand_out x env farm_manager sender receiver lp_denom share (some unlocking_duration) lock = do
  ensure (text_eq receiver sender) unauthorized
  action ← lock_action env lock unlocking_duration receiver
  ok (
      mint_lp_token lp_denom env.contract_address share
      ∷ manage_position farm_manager action (record { denom = lp_denom; amount = share } ∷ [])
      ∷ [])
hand_out x env farm_manager sender receiver lp_denom share none lock = do
  recipient ← ok_or (x.addr_validate receiver) std_error
  ok (mint_lp_token lp_denom recipient share ∷ [])

-- `ExecuteMsg::ProvideLiquidity`: the fields of `LiquidityProvisionData` and the receiver.
unfoldable pub provide_single_asset :
    External
    → Env
    → Text
    → LiquidityProvisionData
    → PoolInfo
    → Coin
    → Storage
    → Result ContractError (Storage × List Message)
provide_single_asset x env receiver provision pool deposit s = do
  ensure (not (any (λ c. c.amount == 0) pool.assets)) empty_pool_for_single_side_liquidity_provision
  ensure (length pool.assets == 2) invalid_pool_assets_for_single_side_liquidity_provision
  ask_asset ← ok_or (find (λ c. not (text_eq c.denom deposit.denom)) pool.assets) asset_mismatch
  let swap_half = record deposit { amount = deposit.amount / 2 }
  simulated ← query_simulation x s swap_half ask_asset.denom provision.pool_identifier
  offer_balance ← ok_or (env.balance deposit.denom) std_error
  ask_balance ← ok_or (env.balance ask_asset.denom) std_error
  outgoing_fees ← aggregate_outgoing_fees simulated
  let expected = saturating_sub ask_balance outgoing_fees
  ensure (not (expected == 0)) max_spread_assertion
  ok (
    record s {
      single_side_liquidity_provision_buffer = some record {
        receiver = receiver;
        expected_offer_asset_balance_in_contract = record {
          denom = deposit.denom;
          amount = offer_balance;
        };
        expected_ask_asset_balance_in_contract = record {
          denom = ask_asset.denom;
          amount = expected;
        };
        offer_asset_half = swap_half;
        expected_ask_asset = record { denom = ask_asset.denom; amount = simulated.return_amount };
        liquidity_provision_data = provision;
      };
    },
    swap_and_reply provision.pool_identifier ask_asset.denom provision.max_spread (swap_half ∷ [])
        ∷ [],
  )

unfoldable pub provide_all_assets :
    External
    → Env
    → Text
    → Text
    → LiquidityProvisionData
    → PoolInfo
    → List Coin
    → Storage
    → Result ContractError (Storage × List Message)
unfolding compute_share hand_out add_deposits
provide_all_assets x env sender receiver provision pool deposits s = do
  total_share ← ok_or (env.total_share pool.lp_denom) std_error
  computed ← compute_share x env.contract_address pool deposits total_share
  assert_slippage_tolerance x provision.slippage_tolerance deposits pool.assets pool.pool_type
      computed.0 total_share
  handed ←
      hand_out x env s.config.farm_manager_addr sender receiver pool.lp_denom computed.0
        provision.unlocking_duration provision.lock_position_identifier
  pool_assets ← add_deposits deposits pool.assets
  s' ← save_pool provision.pool_identifier (record pool { assets = pool_assets }) s
  ok (s', computed.1 ++ handed)

-- Two assets or more, or the single asset that half of is swapped first.
unfoldable pub provide_deposits :
    External
    → Env
    → Text
    → Text
    → LiquidityProvisionData
    → PoolInfo
    → List Coin
    → Storage
    → Result ContractError (Storage × List Message)
unfolding provide_single_asset provide_all_assets
provide_deposits x env sender receiver provision pool [] s = err empty_assets
provide_deposits x env sender receiver provision pool (deposit ∷ []) s =
    provide_single_asset x env receiver provision pool deposit s
provide_deposits x env sender receiver provision pool (d_0 ∷ d_1 ∷ deposits) s =
    provide_all_assets x env sender receiver provision pool (d_0 ∷ d_1 ∷ deposits) s

unfoldable pub provide_liquidity :
    External
    → Env
    → MessageInfo
    → Option Text
    → LiquidityProvisionData
    → Storage
    → Result ContractError (Storage × List Message)
unfolding provide_deposits
provide_liquidity x env info receiver provision s = do
  ensure s.config.feature_toggle.deposits_enabled (operation_disabled (codes "provide_liquidity"))
  pool ← get_pool_by_identifier s provision.pool_identifier
  deposits ← ok_or (x.aggregate_coins info.funds) std_error
  ensure (not (is_empty deposits)) empty_assets
  ensure (all (λ asset. any (λ c. text_eq c.denom asset.denom) pool.assets) deposits) asset_mismatch
  provide_deposits x env info.sender (x.validate_addr_or_default receiver info.sender) provision
      pool deposits s

-- `refund_assets` before the zero amounts are filtered out.
unfoldable pub compute_refunds : External → ℕ → List Coin → Result ContractError (List Coin)
compute_refunds x share_ratio [] = ok []
compute_refunds x share_ratio (pool_asset ∷ assets) = do
  balance ← ok_or (x.decimal256.from_ratio pool_asset.amount 1) panic
  part ← ok_or (x.decimal256.checked_mul balance share_ratio) overflow_error
  amount ← ok_or (try_into 128 (x.decimal256.to_uint_floor part)) conversion_overflow_error
  refunds ← compute_refunds x share_ratio assets
  ok (record { denom = pool_asset.denom; amount = amount } ∷ refunds)

unfoldable pub withdraw_liquidity :
    External → Env → MessageInfo → Text → Storage → Result ContractError (Storage × List Message)
unfolding compute_refunds deduct_refunds
withdraw_liquidity x env info pool_identifier s = do
  ensure s.config.feature_toggle.withdrawals_enabled
      (operation_disabled (codes "withdraw_liquidity"))
  pool ← get_pool_by_identifier s pool_identifier
  amount ← ok_or (x.must_pay info.funds pool.lp_denom) payment_error
  total_share ← ok_or (env.total_share pool.lp_denom) std_error
  share_ratio ← ok_or (x.decimal256.from_ratio amount total_share) panic
  ensure (leb share_ratio one) invalid_lp_share_to_withdraw
  refunds ← compute_refunds x share_ratio pool.assets
  let refund_assets = keep (λ c. ltb 0 c.amount) refunds
  assets ← deduct_refunds refund_assets pool.assets
  s' ← save_pool pool_identifier (record pool { assets = assets }) s
  ok (s', send info.sender refund_assets ∷ burn_lp_asset pool.lp_denom amount ∷ [])
