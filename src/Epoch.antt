-- ===== src/Epoch.antt =====
-- The epoch manager: epoch-manager/src/{contract,commands,queries,helpers,error,state}.rs. Times are
-- in seconds, and an epoch's start is the number handed to `Timestamp::from_seconds`.
pub mod Schedule
pub mod Duration
mod Tests
use stratosphere_contracts.Base.{
  ℕ, ◌+◌, ◌-◌, ◌*◌, ◌/◌, ◌%◌, ◌≤◌, ◌<◌, ◌≡◌, Bool, true, false, not, Option, none, some, List, [],
  ◌∷◌, ltb, leb, if◌then◌else◌, Result, ok, err, ◌>>=◌, ◌>>◌, ensure, ok_or, unwrap_or, checked_add,
  checked_mul, checked_div,
}
use stratosphere_contracts.Base.Text.{Text}
use stratosphere_contracts.Base.Coins.{Coin, MessageInfo}

-- `ContractError`; a `From` conversion keeps the kind of the library's error.
pub data ContractError : Type 0 where
  std_error ownership_error payment_error : ContractError
  genesis_epoch_has_not_started invalid_start_time : ContractError
  invalid_epoch_duration : ℕ → ContractError

-- mantra_dex_std::epoch_manager::{EpochConfig, Config, Epoch}, with the fields that the sources read.
pub record EpochConfig : Type 0 where
  pub duration : ℕ
  pub genesis_epoch : ℕ

pub record Config : Type 0 where
  pub epoch_config : EpochConfig

pub record Epoch : Type 0 where
  pub id : ℕ
  pub start_time : ℕ

-- What the contract calls and does not implement: mantra_dex_std's constant, cw_ownable, cw_utils,
-- mantra_utils.
pub record External : Type 0 where
  pub day_in_seconds : ℕ
  pub is_owner : Text → Bool
  pub initialize_owner : Text → Bool
  pub nonpayable : List Coin → Bool
  pub update_ownership : MessageInfo → Bool

-- `helpers::validate_epoch_duration`
pub validate_epoch_duration : External → ℕ → Result ContractError (Unit {0})
validate_epoch_duration x duration =
    ensure (leb x.day_in_seconds duration) (invalid_epoch_duration x.day_in_seconds)

-- `contract::instantiate`; the block's time in seconds comes from `env`.
pub record InstantiateMsg : Type 0 where
  pub owner : Text
  pub epoch_config : EpochConfig

pub instantiate : External → ℕ → InstantiateMsg → Result ContractError Config
unfolding validate_epoch_duration
instantiate x now msg = do
  ensure (leb now msg.epoch_config.genesis_epoch) invalid_start_time
  validate_epoch_duration x msg.epoch_config.duration
  ensure (x.initialize_owner msg.owner) std_error
  ok (record { epoch_config = msg.epoch_config })

-- `commands::update_config`
pub update_config :
    External → MessageInfo → Option EpochConfig → Config → Result ContractError Config
unfolding validate_epoch_duration
update_config x info none config = do ensure (x.is_owner info.sender) ownership_error; ok config
update_config x info (some epoch_config) config = do
  ensure (x.is_owner info.sender) ownership_error
  validate_epoch_duration x epoch_config.duration
  ok (record config { epoch_config = epoch_config })

-- `contract::execute`
pub data ExecuteMsg : Type 0 where
  update_config_msg : Option EpochConfig → ExecuteMsg
  update_ownership_msg : ExecuteMsg

pub execute : External → MessageInfo → ExecuteMsg → Config → Result ContractError Config
unfolding update_config
execute x info (update_config_msg epoch_config) config = do
  ensure (x.nonpayable info.funds) payment_error
  update_config x info epoch_config config
execute x info update_ownership_msg config = do
  ensure (x.nonpayable info.funds) payment_error
  ensure (x.update_ownership info) ownership_error
  ok config

-- `queries::query_epoch`
pub query_epoch : Config → ℕ → Result ContractError Epoch
query_epoch config id = do
  offset ← ok_or (checked_mul 64 id config.epoch_config.duration) std_error
  start_time ← ok_or (checked_add 64 config.epoch_config.genesis_epoch offset) std_error
  ok (record { id = id; start_time = start_time })

-- `queries::query_current_epoch`; `checked_div_floor((duration, 1))` divides by the duration.
pub query_current_epoch : Config → ℕ → Result ContractError Epoch
unfolding query_epoch
query_current_epoch config now = do
  ensure (leb config.epoch_config.genesis_epoch now) genesis_epoch_has_not_started
  id ←
      ok_or (checked_div (now - config.epoch_config.genesis_epoch) config.epoch_config.duration)
        std_error
  query_epoch config id

-- A transaction that fails leaves the storage as it was.
pub after : {E A : Type 0} → A → Result E A → A
after s (ok s') = s'
after s (err e) = s

pub run : External → Config → List (MessageInfo × ExecuteMsg) → Config
unfolding execute after
run x config [] = config
run x config ((info, msg) ∷ msgs) = run x (after config (execute x info msg config)) msgs
