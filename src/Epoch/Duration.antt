-- ===== src/Epoch/Duration.antt =====
-- What epoch-manager/src/{contract,commands}.rs keep of the configuration.
use stratosphere_contracts.Base.{ℕ, ◌≤◌, ◌≡◌, false, List, [], ◌∷◌, ok, arith}
use stratosphere_contracts.Base.Coins.{MessageInfo}
use stratosphere_contracts.Epoch.{
  Config, External, InstantiateMsg, ExecuteMsg, update_config_msg, update_ownership_msg,
  instantiate, execute, after, run,
}

-- The invariant of the stored configuration.
pub record IsValid (x : External) (config : Config) : Type 0 where
  pub long_enough : x.day_in_seconds ≤ config.epoch_config.duration

pub instantiate-IsValid :
    (x : External) (now : ℕ) (msg : InstantiateMsg) {config : Config}
    → instantiate x now msg ≡ ok config
    → IsValid x config × (now ≤ config.epoch_config.genesis_epoch)
unfolding instantiate
instantiate-IsValid x now msg h = ground arith

after-execute-IsValid :
    (x : External) (info : MessageInfo) (msg : ExecuteMsg) (config : Config)
    → IsValid x config
    → IsValid x (after config (execute x info msg config))
unfolding execute after
after-execute-IsValid x info (update_config_msg c) config v = ground arith
after-execute-IsValid x info update_ownership_msg config v = ground arith

run-IsValid :
    (x : External) (config : Config) (calls : List (MessageInfo × ExecuteMsg))
    → IsValid x config
    → IsValid x (run x config calls)
unfolding run
run-IsValid x config [] v = v
run-IsValid x config ((info, msg) ∷ calls) v =
    run-IsValid x (after config (execute x info msg config)) calls
      (after-execute-IsValid x info msg config v)

-- From the instantiation on, whatever messages follow, an epoch lasts a day at least.
pub run-instantiate-IsValid :
    (x : External) (now : ℕ) (msg : InstantiateMsg) {config : Config}
    (calls : List (MessageInfo × ExecuteMsg))
    → instantiate x now msg ≡ ok config
    → IsValid x (run x config calls)
run-instantiate-IsValid x now msg {config = config} calls h =
    run-IsValid x config calls (instantiate-IsValid x now msg h).0

-- Who does not own the contract cannot change the configuration by any message.
pub after-execute_not_owner :
    (x : External) (info : MessageInfo) (msg : ExecuteMsg) (config : Config)
    → x.is_owner info.sender ≡ false
    → after config (execute x info msg config) ≡ config
unfolding execute after
after-execute_not_owner x info (update_config_msg c) config h = ground arith
after-execute_not_owner x info update_ownership_msg config h = ground arith
