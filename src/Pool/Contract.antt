-- ===== src/Pool/Contract.antt =====
-- The entry points: contract.rs and manager/update_config.rs, and validate_asset_balance of
-- helpers.rs (pool-manager/src).
use stratosphere_contracts.Base.{
  ℕ, true, Option, none, some, List, [], ◌∷◌, ◌==◌, if◌then◌else◌, Result, ok, err, ◌>>=◌, ◌>>◌,
  ensure, ok_or, unwrap_or,
}
use stratosphere_contracts.Base.Text.{Text}
use stratosphere_contracts.Base.Coins.{Coin, MessageInfo}
use stratosphere_contracts.Pool.Data.{
  ContractError, FeatureToggle, PoolFee, PoolType, LiquidityProvisionData, SwapOperation, Message,
  provide_liquidity_again, Env, External, std_error, ownership_error,
  invalid_single_side_liquidity_provision_swap,
}
use stratosphere_contracts.Pool.Storage.{Storage}
use stratosphere_contracts.Pool.Swaps.{swap}
use stratosphere_contracts.Pool.Router.{execute_swap_operations}
use stratosphere_contracts.Pool.Creation.{create_pool}
use stratosphere_contracts.Pool.Liquidity.{provide_liquidity, withdraw_liquidity}

pub record InstantiateMsg : Type 0 where
  pub fee_collector_addr : Text
  pub farm_manager_addr : Text
  pub pool_creation_fee : Coin

unfoldable pub instantiate : External → MessageInfo → InstantiateMsg → Result ContractError Storage
instantiate x info msg = do
  fee_collector_addr ← ok_or (x.addr_validate msg.fee_collector_addr) std_error
  farm_manager_addr ← ok_or (x.addr_validate msg.farm_manager_addr) std_error
  ensure (x.initialize_owner info.sender) std_error
  ok record {
    config = record {
      fee_collector_addr = fee_collector_addr;
      farm_manager_addr = farm_manager_addr;
      pool_creation_fee = msg.pool_creation_fee;
      feature_toggle = record {
        withdrawals_enabled = true;
        deposits_enabled = true;
        swaps_enabled = true;
      };
    };
    pool_counter = 0;
    pools = [];
    single_side_liquidity_provision_buffer = none;
  }

unfoldable pub validate_asset_balance : Env → Coin → Result ContractError (Unit {0})
validate_asset_balance env expected_balance = do
  amount ← ok_or (env.balance expected_balance.denom) std_error
  ensure (expected_balance.amount == amount)
      (invalid_single_side_liquidity_provision_swap expected_balance.amount amount)

abbrev pub single_side_liquidity_provision_reply_id : ℕ
single_side_liquidity_provision_reply_id = 1

-- The reply to the swap of the first half: it consumes the buffer and provides both halves.
unfoldable pub reply : Env → ℕ → Storage → Result ContractError (Storage × List Message)
unfolding validate_asset_balance
reply env id s =
    if id == single_side_liquidity_provision_reply_id
    then (do
      buffer ← ok_or s.single_side_liquidity_provision_buffer std_error
      validate_asset_balance env buffer.expected_offer_asset_balance_in_contract
      validate_asset_balance env buffer.expected_ask_asset_balance_in_contract
      ok (
        record s { single_side_liquidity_provision_buffer = none },
        provide_liquidity_again buffer.receiver buffer.liquidity_provision_data
              (buffer.offer_asset_half ∷ buffer.expected_ask_asset ∷ [])
            ∷ [],
      ))
    else err std_error

pub record ConfigUpdate : Type 0 where
  pub fee_collector_addr : Option Text
  pub farm_manager_addr : Option Text
  pub pool_creation_fee : Option Coin
  pub feature_toggle : Option FeatureToggle

-- An address that is given is validated; otherwise the old one stays.
unfoldable pub updated_address : External → Option Text → Text → Result ContractError Text
updated_address x none old = ok old
updated_address x (some new) old = ok_or (x.addr_validate new) std_error

unfoldable pub update_config :
    External → MessageInfo → ConfigUpdate → Storage → Result ContractError (Storage × List Message)
unfolding updated_address
update_config x info update s = do
  ensure (x.is_owner info.sender) ownership_error
  fee_collector_addr ← updated_address x update.fee_collector_addr s.config.fee_collector_addr
  farm_manager_addr ← updated_address x update.farm_manager_addr s.config.farm_manager_addr
  ok (
    record s {
      config = record {
        fee_collector_addr = fee_collector_addr;
        farm_manager_addr = farm_manager_addr;
        pool_creation_fee = unwrap_or update.pool_creation_fee s.config.pool_creation_fee;
        feature_toggle = unwrap_or update.feature_toggle s.config.feature_toggle;
      };
    },
    [],
  )

pub data ExecuteMsg : Type 0 where
  create_pool_msg : List Text → List ℕ → PoolFee → PoolType → Option Text → ExecuteMsg
  provide_liquidity_msg : Option Text → LiquidityProvisionData → ExecuteMsg
  swap_msg : Text → Option ℕ → Option ℕ → Option Text → Text → ExecuteMsg
  withdraw_liquidity_msg : Text → ExecuteMsg
  execute_swap_operations_msg : List SwapOperation → Option ℕ → Option Text → Option ℕ → ExecuteMsg
  update_config_msg : ConfigUpdate → ExecuteMsg

-- `execute`, but for `UpdateOwnership`, which goes to a library and leaves this storage alone.
unfoldable pub execute :
    External
    → Env
    → MessageInfo
    → ExecuteMsg
    → Storage
    → Result ContractError (Storage × List Message)
unfolding create_pool provide_liquidity swap withdraw_liquidity execute_swap_operations
    update_config
execute x env info (create_pool_msg denoms decimals fees pool_type pool_identifier) s =
    create_pool x env info denoms decimals fees pool_type pool_identifier s
execute x env info (provide_liquidity_msg receiver provision) s =
    provide_liquidity x env info receiver provision s
execute x env info (swap_msg ask_asset_denom belief_price max_spread receiver pool_identifier) s =
    swap x info ask_asset_denom belief_price max_spread receiver pool_identifier s
execute x env info (withdraw_liquidity_msg pool_identifier) s =
    withdraw_liquidity x env info pool_identifier s
execute x env info (execute_swap_operations_msg operations minimum_receive receiver max_spread) s =
    execute_swap_operations x info operations minimum_receive receiver max_spread s
execute x env info (update_config_msg update) s = update_config x info update s
