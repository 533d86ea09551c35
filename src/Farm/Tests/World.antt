-- ===== src/Farm/Tests/World.antt =====
-- Concrete libraries that behave as documented, a configuration, and messages (farm-manager/src).
use stratosphere_contracts.Base.{
  ℕ, ◌+◌, ◌-◌, ◌*◌, ◌/◌, ◌^◌, ◌≡◌, refl, Bool, true, false, Option, none, some, List, [], ◌∷◌, leb,
  ◌==◌, if◌then◌else◌, is_empty, try_into, checked_sub,
}
use stratosphere_contracts.Base.Text.{Text, codes, text_eq}
use stratosphere_contracts.Base.Coins.{Coin, MessageInfo}
use stratosphere_contracts.Base.Decimals.{Decimals, one}
use stratosphere_contracts.Farm.Data.{Config, FarmParams, Env, External}
use stratosphere_contracts.Farm.Storage.{Storage}
use stratosphere_contracts.Farm.Contract.{InstantiateMsg}
use stratosphere_contracts.Farm.Solvency.Books.{Lawful}

abbrev pub ratio : ℕ → ℕ → ℕ → Option ℕ
ratio w n k = if k == 0 then none else try_into w (n * one / k)

abbrev pub fixed_point : ℕ → Decimals
fixed_point w = record {
  from_atomics = λ n p. try_into w (n * 10 ^ (18 - p));
  from_ratio = ratio w;
  checked_add = λ a b. try_into w (a + b);
  checked_sub = λ a b. checked_sub a b;
  checked_mul = λ a b. try_into w (a * b / one);
  checked_div = λ a b. ratio w a b;
  checked_pow = λ a n. try_into w (a * a / one);
  inv = λ a. ratio w one a;
  to_uint_floor = λ a. a / one;
}

abbrev pub single : List Coin → Option Coin
single [] = none
single (c ∷ []) = some c
single (c ∷ e ∷ cs) = none

abbrev pub expired : Option ℕ → ℕ → Bool
expired none now = false
expired (some t) now = leb t now

abbrev pub external : External
external = record {
  decimal = fixed_point 128;
  decimal256 = fixed_point 256;
  addr_validate = λ a. some a;
  nonpayable = λ funds. is_empty funds;
  one_coin = single;
  is_owner = λ a. text_eq a (codes "owner");
  initialize_owner = λ a. true;
  is_factory_token = λ d. true;
  get_factory_token_creator = λ d. some (codes "pools");
  aggregate_coins = λ cs. some cs;
  is_expired = λ p now. expired p.expiring_at now;
  min_farm_amount = 1000;
  default_farm_duration = 14;
  month_in_seconds = 2629746;
}

pub single_law : (funds : List Coin) (c : Coin) → single funds ≡ some c → funds ≡ c ∷ []
single_law [] c h = cc
single_law (d ∷ []) c h = cc
single_law (d ∷ e ∷ cs) c h = cc

pub external-Lawful : Lawful external
external-Lawful = record {
  one_coin_law = single_law;
  decimal_law = record {
    from_ratio_law = λ n k. refl;
    checked_mul_law = λ a b. refl;
    to_uint_floor_law = λ a. refl;
  };
  aggregate_law = λ cs es d h. cc;
}

abbrev pub config : Config
config = record {
  epoch_manager_addr = codes "epochs";
  fee_collector_addr = codes "fees";
  pool_manager_addr = codes "pools";
  create_farm_fee = record { denom = codes "om"; amount = 100 };
  max_concurrent_farms = 2;
  max_farm_epoch_buffer = 14;
  min_unlocking_duration = 86400;
  max_unlocking_duration = 31556926;
  farm_expiration_time = 2629746;
  emergency_unlock_penalty = 100000000000000000;
}

abbrev pub start : InstantiateMsg
start = record { owner = codes "owner"; config = config }

-- Epoch 10, and epoch 12, of one day each.
abbrev pub early : Env
early = record {
  block_time = 864000000000000;
  contract_address = codes "farms";
  current_epoch = some 10;
  epoch_start = λ e. some (e * 86400000000000);
}

abbrev pub late : Env
late = record {
  block_time = 1036800000000000;
  contract_address = codes "farms";
  current_epoch = some 12;
  epoch_start = λ e. some (e * 86400000000000);
}

abbrev pub lp : ℕ → Coin
lp n = record { denom = codes "lp"; amount = n }

abbrev pub om : ℕ → Coin
om n = record { denom = codes "om"; amount = n }

abbrev pub from : Text → List Coin → MessageInfo
from sender funds = record { sender = sender; funds = funds }

abbrev pub params : FarmParams
params = record {
  lp_denom = codes "lp";
  start_epoch = some 11;
  preliminary_end_epoch = some 21;
  farm_asset = om 5000;
  farm_identifier = none;
}

abbrev pub empty : Storage
empty = record {
  config = config;
  position_id_counter = 0;
  positions = [];
  last_claimed_epoch = [];
  lp_weight_history = λ a d. [];
  farm_counter = 0;
  farms = [];
}
