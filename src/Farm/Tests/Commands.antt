-- ===== src/Farm/Tests/Commands.antt =====
-- The theorems about single commands of the farm manager at concrete inputs.
use stratosphere_contracts.Base.{◌+◌, ◌≤◌, ◌≡◌, refl, none, some, List, [], ◌∷◌, ok, arith}
use stratosphere_contracts.Base.Text.{codes}
use stratosphere_contracts.Base.Coins.{MessageInfo, amount_of}
use stratosphere_contracts.Farm.Data.{Send}
use stratosphere_contracts.Farm.Storage.{Storage}
use stratosphere_contracts.Farm.Contract.{instantiate, execute}
use stratosphere_contracts.Farm.Solvency.Books.{locked, owed, paid}
use stratosphere_contracts.Farm.Contract.{
  validate_emergency_unlock_penalty, validate_unlocking_duration, validate_farm_expiration_time,
  instantiate, update_addr, update_max_farms, update_max_unlocking, update_min_unlocking,
  update_expiration, update_penalty, update_addresses, update_buffer, update_fields, update_config,
  execute,
}
use stratosphere_contracts.Farm.Manager.{
  process_farm_creation_fee, assert_farm_asset, validate_farm_epochs, is_farm_expired,
  expired_or_false, partition_expired, close_farms, close_farm, farm_id, create_farm, expand_farm,
  named_farm, fill_found, fill_farm,
}
use stratosphere_contracts.Farm.Positions.{
  validate_lp_denom, validate_identifier, validate_unlocking_duration_for_position,
  validate_positions_limit, create_penalty_share_msg, clear_lp_weight_history, reconcile_user_state,
  position_receiver, position_identifier, create_position, expand_position, close_position_in_full,
  close_position_partially, close_amount, close_position, owners_of, owner_shares, penalty_messages,
  emergency_withdraw, expired_withdraw, withdraw_position,
}
use stratosphere_contracts.Farm.Rewards.{
  compute_start_from_epoch_for_address, fill_weights, compute_address_weights,
  fill_contract_weights, compute_contract_weights, emit_rates, compute_farm_emissions, accrue_epoch,
  accrue_epochs, accrue_farm, accrue_farms, calculate_rewards, unique_texts,
  get_unique_lp_asset_denoms_from_positions, claim_from_farm, claim_from_farms, claim_response,
  claim_denom, claim_denoms, claim, query_denoms, all_rewards, query_rewards,
  validate_no_pending_rewards,
}
use stratosphere_contracts.Farm.Storage.{
  entry_at, save_entry, remove_entry, change_history, page, get_farms_by_lp_denom,
  get_farm_by_identifier, get_position, get_positions_by_receiver, get_earliest_address_lp_weight,
  has_any_lp_weight, get_latest_address_lp_weight,
}
use stratosphere_contracts.Farm.Weights.{
  calculate_weight, get_latest_address_weight, change_weight, update_weights, remove_entries,
  sync_address_lp_weight_history,
}
use stratosphere_contracts.Base.Text.{text_eq, is_ascii_alphanumeric, text_lt, to_string}
use stratosphere_contracts.Base.Dict.{may_load, save, remove, values, total}
use stratosphere_contracts.Base.Coins.{coin_amount, amount_of}
use stratosphere_contracts.Farm.Solvency.Books.{lp_held, unclaimed, locked, owed, paid}
use stratosphere_contracts.Farm.Contract.{ConfigUpdate}
use stratosphere_contracts.Farm.Data.{Farm, FarmParams}
use stratosphere_contracts.Farm.Settings.{IsValid, after_updates, after_updates-instantiate-IsValid}
use stratosphere_contracts.Farm.Terms.{
  IsFunded, validate_farm_epochs-bounds, expand_farm-IsFunded, create_farm-IsFunded,
  calculate_weight-bounds,
}
use stratosphere_contracts.Farm.Solvency.Filling.{fee-le}
use stratosphere_contracts.Farm.Solvency.Withdrawals.{paid-penalty_messages, within}
use stratosphere_contracts.Base.{◌-◌, ◌*◌, ◌^◌, ◌<◌, ◌⊎◌}
use stratosphere_contracts.Farm.Tests.World.{
  empty, external, external-Lawful, config, start, early, lp, om, from, params,
}

abbrev no_changes : ConfigUpdate
no_changes = record {
  fee_collector_addr = none;
  epoch_manager_addr = none;
  pool_manager_addr = none;
  create_farm_fee = none;
  max_concurrent_farms = none;
  max_farm_epoch_buffer = none;
  min_unlocking_duration = none;
  max_unlocking_duration = none;
  farm_expiration_time = none;
  emergency_unlock_penalty = none;
}

-- A valid change by the owner, one that is refused, and one by another.
abbrev updates : List (MessageInfo × ConfigUpdate)
updates =
    (
      from (codes "owner") [],
      record no_changes { emergency_unlock_penalty = some 50000000000000000 },
    )
    ∷ (from (codes "owner") [], record no_changes { max_unlocking_duration = some 5 })
    ∷ (from (codes "alice") [], record no_changes { max_concurrent_farms = some 9 })
    ∷ []

started : instantiate external start ≡ ok empty
unfolding instantiate validate_unlocking_duration validate_farm_expiration_time
    validate_emergency_unlock_penalty
started = refl

after_updates-instantiate-IsValid_example :
    IsValid external (after_updates external updates empty).config
after_updates-instantiate-IsValid_example =
    after_updates-instantiate-IsValid external start empty updates started

abbrev fee_messages : List Send
fee_messages = (record { to_address = codes "fees"; amount = om 100 ∷ [] }) ∷ []

abbrev penalty_shares : List Send
penalty_shares =
    (record { to_address = codes "bob"; amount = lp 25 ∷ [] })
    ∷ (record { to_address = codes "eve"; amount = lp 25 ∷ [] })
    ∷ (record { to_address = codes "fees"; amount = lp 51 ∷ [] })
    ∷ []

abbrev filler : MessageInfo
filler = from (codes "bob") (om 5100 ∷ [])

abbrev farm : Farm
farm = record {
  identifier = codes "f-1";
  start_epoch = 11;
  preliminary_end_epoch = 21;
  farm_asset = om 5000;
  lp_denom = codes "lp";
  owner = codes "bob";
  claimed_amount = 0;
  emission_rate = 500;
  last_epoch_claimed = 10;
}

abbrev expanded : Farm
expanded = record farm { farm_asset = om 6000; preliminary_end_epoch = 23 }

abbrev more : FarmParams
more = record params { farm_asset = om 1000; farm_identifier = some (codes "f-1") }

abbrev with_farm : Storage
with_farm = record empty { farms = (codes "f-1", farm) ∷ []; farm_counter = 1 }

computed :
    (process_farm_creation_fee config filler params ≡ ok fee_messages)
    × (assert_farm_asset filler config.create_farm_fee params ≡ ok tt)
    × (penalty_messages external config (codes "lp") (codes "bob" ∷ codes "eve" ∷ []) 101
        ≡ ok penalty_shares)
    × (validate_farm_epochs external params 10 14 ≡ ok (11, 21))
    × (create_farm external early filler params empty ≡ ok (with_farm, fee_messages))
    × (expand_farm external early (from (codes "bob") (om 1000 ∷ [])) farm more with_farm
        ≡ ok (record with_farm { farms = (codes "f-1", expanded) ∷ [] }, []))
    × (calculate_weight external (lp 1000) 31556926 ≡ ok 15999)
    × (may_load (codes "f-1") with_farm.farms ≡ some farm)
unfolding validate_emergency_unlock_penalty validate_unlocking_duration
    validate_farm_expiration_time instantiate update_addr update_max_farms update_max_unlocking
    update_min_unlocking update_expiration update_penalty update_addresses update_buffer
    update_fields update_config execute process_farm_creation_fee assert_farm_asset
    validate_farm_epochs is_farm_expired expired_or_false partition_expired close_farms close_farm
    farm_id create_farm expand_farm named_farm fill_found fill_farm validate_lp_denom
    validate_identifier validate_unlocking_duration_for_position validate_positions_limit
    create_penalty_share_msg clear_lp_weight_history reconcile_user_state position_receiver
    position_identifier create_position expand_position close_position_in_full
    close_position_partially close_amount close_position owners_of owner_shares penalty_messages
    emergency_withdraw expired_withdraw withdraw_position compute_start_from_epoch_for_address
    fill_weights compute_address_weights fill_contract_weights compute_contract_weights emit_rates
    compute_farm_emissions accrue_epoch accrue_epochs accrue_farm accrue_farms calculate_rewards
    unique_texts get_unique_lp_asset_denoms_from_positions claim_from_farm claim_from_farms
    claim_response claim_denom claim_denoms claim query_denoms all_rewards query_rewards
    validate_no_pending_rewards entry_at save_entry remove_entry change_history page
    get_farms_by_lp_denom get_farm_by_identifier get_position get_positions_by_receiver
    get_earliest_address_lp_weight has_any_lp_weight get_latest_address_lp_weight calculate_weight
    get_latest_address_weight change_weight update_weights remove_entries
    sync_address_lp_weight_history text_eq to_string may_load save remove values total coin_amount
    amount_of lp_held unclaimed locked owed paid is_ascii_alphanumeric text_lt
computed = (refl, refl, refl, refl, refl, refl, refl, refl)

fee-le_example :
    paid (codes "om") fee_messages + coin_amount (codes "om") params.farm_asset
    ≤ amount_of (codes "om") filler.funds
fee-le_example = fee-le config filler params (codes "om") fee_messages computed.0 computed.1

paid-penalty_messages_example :
    paid (codes "lp") penalty_shares ≤ within (codes "lp") (codes "lp") 101
paid-penalty_messages_example =
    paid-penalty_messages external external-Lawful config (codes "lp") (codes "lp")
      (codes "bob" ∷ codes "eve" ∷ []) penalty_shares 101 computed.2

validate_farm_epochs-bounds_example : (0 < 11) × (11 < 21) × (10 < 21) × (11 ≤ 10 + 14)
validate_farm_epochs-bounds_example =
    validate_farm_epochs-bounds external params 10 14 11 21 computed.3

create_farm-IsFunded_example :
    (may_load (codes "f-1") empty.farms ≡ some farm)
    ⊎ ((500 * (21 - 11) ≤ 5000)
        × (11 < 21)
        × (farm.farm_asset ≡ params.farm_asset)
        × (farm.owner ≡ filler.sender))
create_farm-IsFunded_example =
    create_farm-IsFunded external early filler params empty (codes "f-1") farm computed.4 computed.7

farm-IsFunded : IsFunded farm
farm-IsFunded = record { funded = omega arith; lasting = omega arith }

expand_farm-IsFunded_example : IsFunded expanded
unfolding may_load text_eq
expand_farm-IsFunded_example =
    expand_farm-IsFunded external early (from (codes "bob") (om 1000 ∷ [])) farm more with_farm
      expanded farm-IsFunded computed.5 refl

calculate_weight-bounds_example :
    (86400 ≤ 31556926) × (31556926 ≤ 31556926) × (1000 ≤ 15999) × (15999 < 2 ^ 128)
calculate_weight-bounds_example =
    calculate_weight-bounds external (lp 1000) 31556926 15999 (omega arith) computed.6
