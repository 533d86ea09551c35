-- ===== src/Epoch/Tests.antt =====
-- The theorems about the epoch manager at concrete inputs, and a run of the code.
use stratosphere_contracts.Base.{
  ℕ, ◌+◌, ◌≤◌, ◌<◌, ◌≡◌, ◌*◌, refl, true, false, some, [], ◌∷◌, ok, arith,
}
use stratosphere_contracts.Base.Text.{codes, text_eq}
use stratosphere_contracts.Base.Coins.{MessageInfo}
use stratosphere_contracts.Base.{is_empty}
use stratosphere_contracts.Epoch.{
  Config, Epoch, External, ExecuteMsg, update_config_msg, query_epoch, query_current_epoch,
  instantiate, execute, after, run,
}
use stratosphere_contracts.Epoch.Schedule.{
  query_current_epoch_contains, query_current_epoch-later, query_epoch_next,
}
use stratosphere_contracts.Epoch.Duration.{
  IsValid, run-instantiate-IsValid, after-execute_not_owner,
}

abbrev external : External
external = record {
  day_in_seconds = 86400;
  is_owner = λ a. text_eq a (codes "owner");
  initialize_owner = λ a. true;
  nonpayable = λ funds. is_empty funds;
  update_ownership = λ info. false;
}

abbrev daily : Config
daily = record { epoch_config = record { duration = 86400; genesis_epoch = 1000 } }

abbrev stranger : MessageInfo
stranger = record { sender = codes "eve"; funds = [] }

abbrev owner : MessageInfo
owner = record { sender = codes "owner"; funds = [] }

abbrev weekly : ExecuteMsg
weekly = update_config_msg (some (record { duration = 604800; genesis_epoch = 1000 }))

second_epoch : query_current_epoch daily 100000 ≡ ok (record { id = 1; start_time = 87400 })
unfolding query_current_epoch
second_epoch = refl

query_current_epoch_contains_example :
    (epoch : Epoch) × (query_current_epoch daily 100000 ≡ ok epoch)
    × (epoch.start_time ≤ 100000)
    × (100000 < epoch.start_time + 86400)
query_current_epoch_contains_example =
    query_current_epoch_contains daily 100000 (omega arith) (omega arith) (omega arith)

query_current_epoch-later_example : ◌≡◌ {A = ℕ} 4 (1 + 3) × ◌≡◌ {A = ℕ} 346600 (87400 + 3 * 86400)
unfolding query_current_epoch query_epoch
query_current_epoch-later_example =
    query_current_epoch-later daily 100000 3 (record { id = 1; start_time = 87400 })
      (record { id = 4; start_time = 346600 }) refl refl

query_epoch_next_example : ◌≡◌ {A = ℕ} 260200 (173800 + 86400)
unfolding query_epoch
query_epoch_next_example =
    query_epoch_next daily 2 {this = record { id = 2; start_time = 173800 }}
      {next = record { id = 3; start_time = 260200 }} refl refl

run-instantiate-IsValid_example :
    IsValid external (run external daily ((owner, weekly) ∷ (stranger, weekly) ∷ []))
unfolding instantiate
run-instantiate-IsValid_example =
    run-instantiate-IsValid external 7
      (record { owner = codes "owner"; epoch_config = daily.epoch_config })
      ((owner, weekly) ∷ (stranger, weekly) ∷ []) refl

after-execute_not_owner_example : after daily (execute external stranger weekly daily) ≡ daily
unfolding text_eq
after-execute_not_owner_example = after-execute_not_owner external stranger weekly daily refl
