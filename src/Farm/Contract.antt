-- ===== src/Farm/Contract.antt =====
-- The entry points: farm-manager/src/contract.rs, and update_config of manager/commands.rs with its
-- validations (helpers.rs).
use stratosphere_contracts.Base.{
  ℕ, Bool, Option, none, some, List, [], ltb, leb, Result, ok, ◌>>=◌, ◌>>◌, ensure, ok_or,
  unwrap_or,
}
use stratosphere_contracts.Base.Text.{Text}
use stratosphere_contracts.Base.Coins.{Coin, MessageInfo}
use stratosphere_contracts.Base.Decimals.{one}
use stratosphere_contracts.Farm.Data.{
  ContractError, Config, FarmParams, Send, External, Env, std_error, payment_error, ownership_error,
  unspecified_concurrent_farms, farm_expiration_time_invalid, maximum_concurrent_farms_decreased,
  invalid_unlocking_range, invalid_emergency_unlock_penalty,
}
use stratosphere_contracts.Farm.Storage.{Storage}
use stratosphere_contracts.Farm.Rewards.{claim}
use stratosphere_contracts.Farm.Positions.{
  create_position, expand_position, close_position, withdraw_position,
}
use stratosphere_contracts.Farm.Manager.{fill_farm, close_farm}

-- `Decimal::percent(100)` is one.
unfoldable pub validate_emergency_unlock_penalty : ℕ → Result ContractError ℕ
validate_emergency_unlock_penalty penalty = do
  ensure (leb penalty one) invalid_emergency_unlock_penalty
  ok penalty

unfoldable pub validate_unlocking_duration : ℕ → ℕ → Result ContractError (Unit {0})
validate_unlocking_duration min_unlocking max_unlocking =
    ensure (leb min_unlocking max_unlocking) (invalid_unlocking_range min_unlocking max_unlocking)

unfoldable pub validate_farm_expiration_time : External → ℕ → Result ContractError (Unit {0})
validate_farm_expiration_time x farm_expiration_time =
    ensure (leb x.month_in_seconds farm_expiration_time)
      (farm_expiration_time_invalid x.month_in_seconds)

-- The fields of `InstantiateMsg` are those of `Config`, with the owner's address.
pub record InstantiateMsg : Type 0 where
  pub owner : Text
  pub config : Config

unfoldable pub instantiate : External → InstantiateMsg → Result ContractError Storage
instantiate x msg = do
  let c = msg.config
  ensure (ltb 0 c.max_concurrent_farms) unspecified_concurrent_farms
  validate_unlocking_duration c.min_unlocking_duration c.max_unlocking_duration
  validate_farm_expiration_time x c.farm_expiration_time
  epoch_manager ← ok_or (x.addr_validate c.epoch_manager_addr) std_error
  fee_collector ← ok_or (x.addr_validate c.fee_collector_addr) std_error
  penalty ← validate_emergency_unlock_penalty c.emergency_unlock_penalty
  ensure (x.initialize_owner msg.owner) std_error
  ok (record {
    config = record c {
      epoch_manager_addr = epoch_manager;
      fee_collector_addr = fee_collector;
      emergency_unlock_penalty = penalty;
    };
    position_id_counter = 0;
    positions = [];
    last_claimed_epoch = [];
    lp_weight_history = λ a d. [];
    farm_counter = 0;
    farms = [];
  })

-- The optional fields of `ExecuteMsg::UpdateConfig`.
pub record ConfigUpdate : Type 0 where
  pub fee_collector_addr : Option Text
  pub epoch_manager_addr : Option Text
  pub pool_manager_addr : Option Text
  pub create_farm_fee : Option Coin
  pub max_concurrent_farms : Option ℕ
  pub max_farm_epoch_buffer : Option ℕ
  pub min_unlocking_duration : Option ℕ
  pub max_unlocking_duration : Option ℕ
  pub farm_expiration_time : Option ℕ
  pub emergency_unlock_penalty : Option ℕ

-- `if let Some(address) = …`: the new address, validated, or the old one.
unfoldable pub update_addr : External → Option Text → Text → Result ContractError Text
update_addr x none old = ok old
update_addr x (some addr) old = ok_or (x.addr_validate addr) std_error

unfoldable pub update_max_farms : Option ℕ → Config → Result ContractError Config
update_max_farms none c = ok c
update_max_farms (some n) c = do
  ensure (leb c.max_concurrent_farms n) maximum_concurrent_farms_decreased
  ok (record c { max_concurrent_farms = n })

unfoldable pub update_max_unlocking : Option ℕ → Config → Result ContractError Config
update_max_unlocking none c = ok c
update_max_unlocking (some d) c = do
  validate_unlocking_duration c.min_unlocking_duration d
  ok (record c { max_unlocking_duration = d })

unfoldable pub update_min_unlocking : Option ℕ → Config → Result ContractError Config
update_min_unlocking none c = ok c
update_min_unlocking (some d) c = do
  validate_unlocking_duration d c.max_unlocking_duration
  ok (record c { min_unlocking_duration = d })

unfoldable pub update_expiration : External → Option ℕ → Config → Result ContractError Config
update_expiration x none c = ok c
update_expiration x (some t) c = do
  validate_farm_expiration_time x t
  ok (record c { farm_expiration_time = t })

unfoldable pub update_penalty : Option ℕ → Config → Result ContractError Config
update_penalty none c = ok c
update_penalty (some p) c = do
  penalty ← validate_emergency_unlock_penalty p
  ok (record c { emergency_unlock_penalty = penalty })

unfoldable pub update_addresses : External → ConfigUpdate → Config → Result ContractError Config
update_addresses x u c = do
  fee_collector ← update_addr x u.fee_collector_addr c.fee_collector_addr
  epoch_manager ← update_addr x u.epoch_manager_addr c.epoch_manager_addr
  pool_manager ← update_addr x u.pool_manager_addr c.pool_manager_addr
  ok (record c {
    fee_collector_addr = fee_collector;
    epoch_manager_addr = epoch_manager;
    pool_manager_addr = pool_manager;
    create_farm_fee = unwrap_or u.create_farm_fee c.create_farm_fee;
  })

unfoldable pub update_buffer : Option ℕ → Config → Result ContractError Config
update_buffer o c = ok (record c { max_farm_epoch_buffer = unwrap_or o c.max_farm_epoch_buffer })

-- The updates in the order of the source.
unfoldable pub update_fields : External → ConfigUpdate → Config → Result ContractError Config
update_fields x u c =
    update_addresses x u c
    >>= update_max_farms u.max_concurrent_farms
    >>= update_buffer u.max_farm_epoch_buffer
    >>= update_max_unlocking u.max_unlocking_duration
    >>= update_min_unlocking u.min_unlocking_duration
    >>= update_expiration x u.farm_expiration_time
    >>= update_penalty u.emergency_unlock_penalty

unfoldable pub update_config :
    External → MessageInfo → ConfigUpdate → Storage → Result ContractError (Storage × List Send)
update_config x info u s = do
  ensure (x.is_owner info.sender) ownership_error
  config ← update_fields x u s.config
  ok (record s { config = config }, [])

-- `ExecuteMsg`; what `UpdateOwnership` changes is cw_ownable's own storage.
pub data ExecuteMsg : Type 0 where
  fill : FarmParams → ExecuteMsg
  close_farm_msg : Text → ExecuteMsg
  update_ownership : Bool → ExecuteMsg
  claim_msg : ExecuteMsg
  create : Option Text → ℕ → Option Text → ExecuteMsg
  expand : Text → ExecuteMsg
  close : Text → Option Coin → ExecuteMsg
  withdraw : Text → Option Bool → ExecuteMsg
  update_config_msg : ConfigUpdate → ExecuteMsg

-- `contract::execute`; the argument of `update_ownership` is whether mantra_utils accepts the action.
unfoldable pub execute :
    External → Env → MessageInfo → ExecuteMsg → Storage → Result ContractError (Storage × List Send)
execute x env info (fill params) s = fill_farm x env info params s
execute x env info (close_farm_msg farm_identifier) s = close_farm x info farm_identifier s
execute x env info (update_ownership accepted) s = do
  ensure (x.nonpayable info.funds) payment_error
  ensure accepted ownership_error
  ok (s, [])
execute x env info claim_msg s = claim x env info s
execute x env info (create identifier unlocking_duration receiver) s =
    create_position x env info identifier unlocking_duration receiver s
execute x env info (expand identifier) s = expand_position x env info identifier s
execute x env info (close identifier lp_asset) s = close_position x env info identifier lp_asset s
execute x env info (withdraw identifier emergency_unlock) s =
    withdraw_position x env info identifier emergency_unlock s
execute x env info (update_config_msg u) s = do
  ensure (x.nonpayable info.funds) payment_error
  update_config x info u s
