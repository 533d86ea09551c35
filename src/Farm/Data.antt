-- ===== src/Farm/Data.antt =====
-- The data of farm-manager/src: error.rs, and the types of mantra_dex_std::farm_manager with the
-- fields that the sources read and write. `open` is spelled `is_open` here.
use stratosphere_contracts.Base.{ℕ, Bool, Option, List}
use stratosphere_contracts.Base.Text.{Text}
use stratosphere_contracts.Base.Coins.{Coin}
use stratosphere_contracts.Base.Decimals.{Decimals}

-- `ContractError`. A `From` conversion keeps the kind of the library's error; `panic` stands for an
-- abort, by `unwrap`, by an index or by an unchecked `+` or `-` that leaves its type.
pub data ContractError : Type 0 where
  std_error unauthorized payment_error ownership_error overflow_error : ContractError
  checked_from_ratio_error checked_multiply_fraction_error : ContractError
  conversion_overflow_error divide_by_zero_error panic : ContractError
  farm_already_exists unspecified_concurrent_farms non_existent_farm : ContractError
  invalid_farm_amount : ℕ → ContractError
  farm_fee_missing farm_ends_in_past : ContractError
  farm_fee_not_paid : ℕ → ℕ → ContractError
  farm_start_time_after_end_time farm_start_too_far farm_already_expired : ContractError
  farm_expiration_time_invalid : ℕ → ContractError
  farm_exhausted asset_mismatch : ContractError
  too_many_farms : ℕ → ContractError
  maximum_concurrent_farms_decreased : ContractError
  invalid_epoch : Text → ContractError
  no_open_positions : ContractError
  no_position_found : Text → ContractError
  position_not_expired : ContractError
  position_already_closed : Text → ContractError
  invalid_lp_amount : ℕ → ℕ → ContractError
  max_positions_per_user_exceeded : ℕ → ContractError
  position_already_exists : Text → ContractError
  invalid_unlocking_duration : ℕ → ℕ → ℕ → ContractError
  invalid_unlocking_range : ℕ → ℕ → ContractError
  invalid_weight : ℕ → ContractError
  invalid_emergency_unlock_penalty pending_rewards : ContractError
  invalid_expansion_amount : ℕ → ContractError
  lp_weight_not_found : ℕ → ContractError
  invalid_identifier : Text → ContractError

pub record Config : Type 0 where
  pub epoch_manager_addr : Text
  pub fee_collector_addr : Text
  pub pool_manager_addr : Text
  pub create_farm_fee : Coin
  pub max_concurrent_farms : ℕ
  pub max_farm_epoch_buffer : ℕ
  pub min_unlocking_duration : ℕ
  pub max_unlocking_duration : ℕ
  pub farm_expiration_time : ℕ
  pub emergency_unlock_penalty : ℕ

pub record Position : Type 0 where
  pub identifier : Text
  pub lp_asset : Coin
  pub unlocking_duration : ℕ
  pub is_open : Bool
  pub expiring_at : Option ℕ
  pub receiver : Text

-- The farm's `curve` is stored and printed, and no code reads it; it is left out.
pub record Farm : Type 0 where
  pub identifier : Text
  pub start_epoch : ℕ
  pub preliminary_end_epoch : ℕ
  pub farm_asset : Coin
  pub lp_denom : Text
  pub owner : Text
  pub claimed_amount : ℕ
  pub emission_rate : ℕ
  pub last_epoch_claimed : ℕ

pub record FarmParams : Type 0 where
  pub lp_denom : Text
  pub start_epoch : Option ℕ
  pub preliminary_end_epoch : Option ℕ
  pub farm_asset : Coin
  pub farm_identifier : Option Text

-- `BankMsg::Send`, the one message that the contract emits.
pub record Send : Type 0 where
  pub to_address : Text
  pub amount : List Coin

-- The block and the other contracts' answers within one transaction: the epoch manager's current
-- epoch and the start of an epoch (`none` where the query fails). Times are in nanoseconds.
pub record Env : Type 0 where
  pub block_time : ℕ
  pub contract_address : Text
  pub current_epoch : Option ℕ
  pub epoch_start : ℕ → Option ℕ

-- What the contract calls and does not implement: cosmwasm_std, cw_utils, cw_ownable, mantra_utils
-- and mantra_dex_std.
pub record External : Type 0 where
  pub decimal : Decimals
  pub decimal256 : Decimals
  pub addr_validate : Text → Option Text
  pub nonpayable : List Coin → Bool
  pub one_coin : List Coin → Option Coin
  pub is_owner : Text → Bool
  pub initialize_owner : Text → Bool
  pub is_factory_token : Text → Bool
  pub get_factory_token_creator : Text → Option Text
  pub aggregate_coins : List Coin → Option (List Coin)
  pub is_expired : Position → ℕ → Bool
  pub min_farm_amount : ℕ
  pub default_farm_duration : ℕ
  pub month_in_seconds : ℕ
