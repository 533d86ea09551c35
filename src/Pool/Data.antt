-- ===== src/Pool/Data.antt =====
-- The data of pool-manager/src: error.rs, state.rs, and the types of mantra_dex_std::pool_manager
-- with the fields that the sources read and write.
use stratosphere_contracts.Base.{ℕ, Bool, Option, List}
use stratosphere_contracts.Base.Text.{Text}
use stratosphere_contracts.Base.Coins.{Coin}
use stratosphere_contracts.Base.Decimals.{Decimals}

-- `ContractError`. A `From` conversion keeps the kind of the library's error; `panic` stands for an
-- abort, by `unwrap`, by an index, or by an operator that leaves its type.
pub data ContractError : Type 0 where
  std_error payment_error ownership_error unauthorized same_asset : ContractError
  overflow_error checked_multiply_ratio_error checked_from_ratio_error : ContractError
  divide_by_zero_error conversion_overflow_error panic : ContractError
  minimum_receive_assertion : ℕ → ℕ → ContractError
  pool_exists : Text → ContractError
  too_many_assets : ℕ → ContractError
  empty_assets : ContractError
  invalid_single_side_liquidity_provision_swap : ℕ → ℕ → ContractError
  empty_pool_for_single_side_liquidity_provision : ContractError
  invalid_pool_assets_for_single_side_liquidity_provision : ContractError
  un_existing_pool : ContractError
  operation_disabled : Text → ContractError
  invalid_initial_liquidity_amount : ℕ → ContractError
  liquidity_share_computation_failed invalid_lp_share_to_withdraw : ContractError
  max_spread_assertion max_slippage_assertion asset_mismatch : ContractError
  stable_lp_mint_error converge_error swap_overflow_error decimal_overflow : ContractError
  no_swap_operations_provided : ContractError
  non_consecutive_swap_operations : Text → Text → ContractError
  invalid_pool_creation_fee : ℕ → ℕ → ContractError
  extra_funds_sent : ContractError
  invalid_pool_assets_length : ℕ → ℕ → ContractError
  pool_has_no_assets : ContractError
  invalid_lp_asset : Text → ContractError
  invalid_pool_identifier : Text → ContractError
  token_factory_fee_not_paid : ContractError

pub data PoolType : Type 0 where
  constant_product : PoolType
  stable_swap : ℕ → PoolType

-- A fee is its share, in atomics.
pub record PoolFee : Type 0 where
  pub protocol_fee : ℕ
  pub swap_fee : ℕ
  pub burn_fee : ℕ
  pub extra_fees : List ℕ

pub record PoolInfo : Type 0 where
  pub pool_identifier : Text
  pub asset_denoms : List Text
  pub lp_denom : Text
  pub asset_decimals : List ℕ
  pub assets : List Coin
  pub pool_type : PoolType
  pub pool_fees : PoolFee

pub record FeatureToggle : Type 0 where
  pub withdrawals_enabled : Bool
  pub deposits_enabled : Bool
  pub swaps_enabled : Bool

pub record Config : Type 0 where
  pub fee_collector_addr : Text
  pub farm_manager_addr : Text
  pub pool_creation_fee : Coin
  pub feature_toggle : FeatureToggle

pub record LiquidityProvisionData : Type 0 where
  pub max_spread : Option ℕ
  pub slippage_tolerance : Option ℕ
  pub pool_identifier : Text
  pub unlocking_duration : Option ℕ
  pub lock_position_identifier : Option Text

pub record SingleSideLiquidityProvisionBuffer : Type 0 where
  pub receiver : Text
  pub expected_offer_asset_balance_in_contract : Coin
  pub expected_ask_asset_balance_in_contract : Coin
  pub offer_asset_half : Coin
  pub expected_ask_asset : Coin
  pub liquidity_provision_data : LiquidityProvisionData

-- `SwapOperation::MantraSwap`, the one constructor of its type.
pub record SwapOperation : Type 0 where
  pub token_in_denom : Text
  pub token_out_denom : Text
  pub pool_identifier : Text

-- `PositionAction` of the farm manager, as the pool manager calls it.
pub data PositionAction : Type 0 where
  create : Option Text → ℕ → Option Text → PositionAction
  expand : Text → PositionAction

-- The messages that the contract emits: the bank's, the token factory's, and calls of contracts,
-- of itself with `provide_liquidity` and (as a submessage that is replied to) with `swap`.
pub data Message : Type 0 where
  send : Text → List Coin → Message
  burn : Coin → Message
  mint_lp_token : Text → Text → ℕ → Message
  burn_lp_asset : Text → ℕ → Message
  create_denom : Text → Message
  manage_position : Text → PositionAction → List Coin → Message
  provide_liquidity_again : Text → LiquidityProvisionData → List Coin → Message
  swap_and_reply : Text → Text → Option ℕ → List Coin → Message

-- The chain's answers within one transaction: the contract's bank balance (`query_balance`), the
-- supply of an LP token (`get_total_share`), the token factory's fee, and the farm manager's
-- positions with an identifier, each as identifier and receiver; `none` where the query fails.
pub record Env : Type 0 where
  pub contract_address : Text
  pub balance : Text → Option ℕ
  pub total_share : Text → Option ℕ
  pub denom_creation_fee : Option (List Coin)
  pub positions : Text → Option (List (Text × Text))

-- What the contract calls and does not implement: cosmwasm_std, cw_utils, cw_ownable, mantra_utils
-- and mantra_dex_std.
pub record External : Type 0 where
  pub decimal : Decimals
  pub decimal256 : Decimals
  pub compute : ℕ → ℕ → Option ℕ
  pub to_decimal_256 : ℕ → ℕ
  pub fees_are_valid : PoolFee → Bool
  pub addr_validate : Text → Option Text
  pub validate_addr_or_default : Option Text → Text → Text
  pub nonpayable : List Coin → Bool
  pub one_coin : List Coin → Option Coin
  pub must_pay : List Coin → Text → Option ℕ
  pub is_owner : Text → Bool
  pub initialize_owner : Text → Bool
  pub is_factory_token : Text → Bool
  pub aggregate_coins : List Coin → Option (List Coin)
  pub add_coins : List Coin → List Coin → Option (List Coin)
  pub integer_sqrt : ℕ → ℕ
  pub minimum_liquidity_amount : ℕ
  pub lp_symbol : Text
  pub factory_max_subdenom_size : ℕ
