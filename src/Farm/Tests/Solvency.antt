-- ===== src/Farm/Tests/Solvency.antt =====
-- The theorems about the farm manager's balance at concrete inputs.
use stratosphere_contracts.Base.{
  ℕ, ◌+◌, ◌≤◌, ◌≡◌, refl, true, none, some, List, [], ◌∷◌, take, ok, err,
}
use stratosphere_contracts.Base.Text.{codes}
use stratosphere_contracts.Base.Coins.{amount_of}
use stratosphere_contracts.Farm.Data.{Send}
use stratosphere_contracts.Farm.Storage.{Storage}
use stratosphere_contracts.Farm.Contract.{fill, claim_msg, create, withdraw, instantiate, execute}
use stratosphere_contracts.Farm.Solvency.Books.{locked, owed, paid, Covered}
use stratosphere_contracts.Farm.Rewards.{claim_rewards}
use stratosphere_contracts.Farm.Keys.{IsKept}
use stratosphere_contracts.Base.Dict.{Dict}
use stratosphere_contracts.Farm.Repeat.{claim-claim-nothing}
use stratosphere_contracts.Farm.Solvency.Run.{execute-Covered, execute-IsKept}
use stratosphere_contracts.Farm.Solvency.Accrual.{due, calculate_rewards-charged}
use stratosphere_contracts.Farm.Solvency.Ledger.{
  Call, settled, run, IsSolvent, run-instantiate-IsSolvent, execute-run-payable,
}
use stratosphere_contracts.Farm.Contract.{
  validate_emergency_unlock_penalty, validate_unlocking_duration, validate_farm_expiration_time,
  instantiate, update_addr, update_max_farms, update_max_unlocking, update_min_unlocking,
  update_expiration, update_penalty, update_addresses, update_buffer, update_fields, update_config,
  execute,
}
use stratosphere_contracts.Farm.Manager.{
  process_farm_creation_fee, assert_farm_asset, validate_farm_epochs, is_farm_expired,
  expired_or_false, partition_expired, close_farms, close_farm, farm_id, create_farm, expand_farm,
  named_farm, fill_found, fill_farm,
}
use stratosphere_contracts.Farm.Positions.{
  validate_lp_denom, validate_identifier, validate_unlocking_duration_for_position,
  validate_positions_limit, create_penalty_share_msg, clear_lp_weight_history, reconcile_user_state,
  position_receiver, position_identifier, create_position, expand_position, close_position_in_full,
  close_position_partially, close_amount, close_position, owners_of, owner_shares, penalty_messages,
  emergency_withdraw, expired_withdraw, withdraw_position,
}
use stratosphere_contracts.Farm.Rewards.{
  compute_start_from_epoch_for_address, fill_weights, compute_address_weights,
  fill_contract_weights, compute_contract_weights, emit_rates, compute_farm_emissions, accrue_epoch,
  accrue_epochs, accrue_farm, accrue_farms, calculate_rewards, unique_texts,
  get_unique_lp_asset_denoms_from_positions, claim_from_farm, claim_from_farms, claim_response,
  claim_denom, claim_denoms, claim, query_denoms, all_rewards, query_rewards,
  validate_no_pending_rewards,
}
use stratosphere_contracts.Farm.Storage.{
  entry_at, save_entry, remove_entry, change_history, page, get_farms_by_lp_denom,
  get_farm_by_identifier, get_position, get_positions_by_receiver, get_earliest_address_lp_weight,
  has_any_lp_weight, get_latest_address_lp_weight,
}
use stratosphere_contracts.Farm.Weights.{
  calculate_weight, get_latest_address_weight, change_weight, update_weights, remove_entries,
  sync_address_lp_weight_history,
}
use stratosphere_contracts.Base.Text.{text_eq, is_ascii_alphanumeric, text_lt, to_string}
use stratosphere_contracts.Base.Dict.{may_load, save, remove, values, total}
use stratosphere_contracts.Base.Coins.{coin_amount, amount_of}
use stratosphere_contracts.Farm.Solvency.Books.{lp_held, unclaimed, locked, owed, paid}
use stratosphere_contracts.Farm.Solvency.Ledger.{settled, run}
use stratosphere_contracts.Farm.Tests.World.{
  empty, external, external-Lawful, start, early, late, lp, om, from, params,
}

-- A position and a farm, then a claim two epochs later, and an emergency withdrawal.
abbrev calls : List Call
calls =
    (record {
      env = early;
      info = from (codes "alice") (lp 1000 ∷ []);
      msg = create none 86400 none;
    })
    ∷ (record { env = early; info = from (codes "bob") (om 5100 ∷ []); msg = fill params })
    ∷ (record { env = late; info = from (codes "alice") []; msg = claim_msg })
    ∷ (record {
      env = late;
      info = from (codes "alice") [];
      msg = withdraw (codes "p-1") (some true);
    })
    ∷ []

started : instantiate external start ≡ ok empty
unfolding instantiate validate_unlocking_duration validate_farm_expiration_time
    validate_emergency_unlock_penalty
started = refl

run-instantiate-IsSolvent_example :
    IsSolvent (codes "om") (run external (codes "om") calls (empty, 0))
run-instantiate-IsSolvent_example =
    run-instantiate-IsSolvent external external-Lawful (codes "om") start empty calls started

-- The first two of the calls.
abbrev prepared : Storage
prepared = (run external (codes "lp") (take 2 calls) (empty, 0)).0

-- What an emergency withdrawal then answers.
abbrev leaving : Call
leaving = record {
  env = late;
  info = from (codes "alice") [];
  msg = withdraw (codes "p-1") (some true);
}

abbrev answer : Call → Storage → Storage × List Send
answer c s = elim (execute external c.env c.info c.msg s) [ ok out ↦ out | err e ↦ (empty, []) ]

abbrev charges : Dict ℕ
charges = (codes "f-1", 1000) ∷ []

-- A claim, and a second one.
abbrev claiming : Call
claiming = record { env = late; info = from (codes "alice") []; msg = claim_msg }

abbrev claimed : Storage × List Send
claimed = answer claiming prepared

abbrev claimed_again : Storage × List Send
claimed_again = answer claiming claimed.0

-- The fee of 100 went on and two epochs of 500 were claimed; the withdrawal is no error; a claim
-- charges the farm; and two claims succeed.
computed :
    ((run external (codes "om") calls (empty, 0)).1 ≡ 4000)
    × (execute external leaving.env leaving.info leaving.msg prepared
        ≡ ok (answer leaving prepared))
    × (calculate_rewards external late prepared (codes "lp") (codes "alice") 12 true
        ≡ ok (claim_rewards (om 500 ∷ om 500 ∷ []) charges))
    × (paid (codes "lp") (answer leaving prepared).1 ≡ 1000)
    × (claim external late leaving.info prepared ≡ ok claimed)
    × (claim external late leaving.info claimed.0 ≡ ok claimed_again)
unfolding validate_emergency_unlock_penalty validate_unlocking_duration
    validate_farm_expiration_time instantiate update_addr update_max_farms update_max_unlocking
    update_min_unlocking update_expiration update_penalty update_addresses update_buffer
    update_fields update_config execute process_farm_creation_fee assert_farm_asset
    validate_farm_epochs is_farm_expired expired_or_false partition_expired close_farms close_farm
    farm_id create_farm expand_farm named_farm fill_found fill_farm validate_lp_denom
    validate_identifier validate_unlocking_duration_for_position validate_positions_limit
    create_penalty_share_msg clear_lp_weight_history reconcile_user_state position_receiver
    position_identifier create_position expand_position close_position_in_full
    close_position_partially close_amount close_position owners_of owner_shares penalty_messages
    emergency_withdraw expired_withdraw withdraw_position compute_start_from_epoch_for_address
    fill_weights compute_address_weights fill_contract_weights compute_contract_weights emit_rates
    compute_farm_emissions accrue_epoch accrue_epochs accrue_farm accrue_farms calculate_rewards
    unique_texts get_unique_lp_asset_denoms_from_positions claim_from_farm claim_from_farms
    claim_response claim_denom claim_denoms claim query_denoms all_rewards query_rewards
    validate_no_pending_rewards entry_at save_entry remove_entry change_history page
    get_farms_by_lp_denom get_farm_by_identifier get_position get_positions_by_receiver
    get_earliest_address_lp_weight has_any_lp_weight get_latest_address_lp_weight calculate_weight
    get_latest_address_weight change_weight update_weights remove_entries
    sync_address_lp_weight_history text_eq to_string may_load save remove values total coin_amount
    amount_of lp_held unclaimed locked owed paid settled run is_ascii_alphanumeric text_lt
computed = (refl, refl, refl, refl, refl, refl)

execute-run-payable_example :
    paid (codes "lp") (answer leaving prepared).1
    ≤ (run external (codes "lp") (take 2 calls) (empty, 0)).1
      + amount_of (codes "lp") leaving.info.funds
execute-run-payable_example =
    execute-run-payable external external-Lawful (codes "lp") start empty (take 2 calls) leaving
      (answer leaving prepared) started computed.1

prepared-IsKept : IsKept prepared
prepared-IsKept =
    (run-instantiate-IsSolvent external external-Lawful (codes "lp") start empty (take 2 calls)
      started).kept

execute-Covered_example : Covered (codes "lp") prepared leaving.info.funds (answer leaving prepared)
execute-Covered_example =
    execute-Covered external external-Lawful late leaving.info prepared prepared-IsKept leaving.msg
      (codes "lp") (answer leaving prepared) computed.1

execute-IsKept_example : IsKept (answer leaving prepared).0
execute-IsKept_example =
    execute-IsKept external external-Lawful late leaving.info prepared prepared-IsKept leaving.msg
      (answer leaving prepared) computed.1

calculate_rewards-charged_example :
    amount_of (codes "om") (om 500 ∷ om 500 ∷ []) ≡ due (codes "om") prepared.farms charges
calculate_rewards-charged_example =
    calculate_rewards-charged prepared (codes "om") external late (codes "lp") (codes "alice") 12
      (om 500 ∷ om 500 ∷ []) charges external-Lawful prepared-IsKept.farms computed.2

claim-claim-nothing_example : claimed_again.1 ≡ []
claim-claim-nothing_example =
    claim-claim-nothing external late late leaving.info 12 prepared refl refl computed.4 computed.5
