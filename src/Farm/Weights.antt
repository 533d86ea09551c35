-- ===== src/Farm/Weights.antt =====
-- The LP weights: farm-manager/src/position/helpers.rs (calculate_weight, get_latest_address_weight),
-- position/commands.rs (update_weights) and farm/commands.rs (sync_address_lp_weight_history).
use stratosphere_contracts.Base.{
  ℕ, ◌^◌, Bool, true, false, ◌&&◌, not, List, [], ◌∷◌, leb, if◌then◌else◌, max, range_to, last?,
  Result, ok, err, ◌>>=◌, ok_or, unwrap_or, checked_add, checked_div, saturating_sub, try_into,
}
use stratosphere_contracts.Base.Text.{Text}
use stratosphere_contracts.Base.Coins.{Coin}
use stratosphere_contracts.Farm.Data.{
  ContractError, External, Env, std_error, overflow_error, conversion_overflow_error,
  divide_by_zero_error, checked_from_ratio_error, invalid_weight, panic,
}
use stratosphere_contracts.Farm.Storage.{
  Storage, Entries, save_entry, remove_entry, change_history, get_earliest_address_lp_weight,
  get_latest_address_lp_weight,
}

abbrev pub seconds_in_day : ℕ
seconds_in_day = 86400

abbrev pub seconds_in_year : ℕ
seconds_in_year = 31556926

-- The multiplier: a quadratic in the duration, over decimals.
weight_multiplier : External → ℕ → Result ContractError ℕ
weight_multiplier x unlocking_duration = do
  duration ← ok_or (x.decimal256.from_atomics unlocking_duration 0) panic
  squared ← ok_or (x.decimal256.checked_pow duration 2) overflow_error
  mul ← ok_or (x.decimal256.checked_mul squared 109498841) overflow_error
  part ← ok_or (x.decimal256.checked_div mul 7791996353100889432894) checked_from_ratio_error
  linear ← ok_or (x.decimal256.checked_mul duration 249042009202369) overflow_error
  next_part ←
      ok_or (x.decimal256.checked_div linear 7791996353100889432894) checked_from_ratio_error
  final_part ← ok_or (x.decimal256.from_ratio 246210981355969 246918738317569) panic
  parts ← ok_or (x.decimal256.checked_add part next_part) overflow_error
  ok_or (x.decimal256.checked_add parts final_part) overflow_error

unfoldable pub calculate_weight : External → Coin → ℕ → Result ContractError ℕ
unfolding weight_multiplier
calculate_weight x lp_asset unlocking_duration =
    if not (leb seconds_in_day unlocking_duration && leb unlocking_duration seconds_in_year)
    then err (invalid_weight unlocking_duration)
    else do
      amount ← ok_or (x.decimal256.from_atomics lp_asset.amount 0) panic
      multiplier ← weight_multiplier x unlocking_duration
      weighted ← ok_or (x.decimal256.checked_mul amount multiplier) overflow_error
      atomics ← ok_or (checked_div weighted (10 ^ 18)) divide_by_zero_error
      weight ← ok_or (try_into 128 atomics) conversion_overflow_error
      ok (max weight lp_asset.amount)

-- `get_latest_address_weight` with `return_latest_weight`
unfoldable pub get_latest_address_weight : Storage → Text → Text → ℕ × ℕ
get_latest_address_weight s address lp_denom =
    unwrap_or (last? (s.lp_weight_history address lp_denom)) (0, 0)

-- Filling adds the weight, closing takes it off.
unfoldable pub change_weight : Bool → ℕ → ℕ → Result ContractError ℕ
change_weight true old weight = ok_or (checked_add 128 old weight) overflow_error
change_weight false old weight = ok (saturating_sub old weight)

unfoldable pub update_weights :
    External → Env → Text → Coin → ℕ → Bool → Storage → Result ContractError Storage
update_weights x env receiver lp_asset unlocking_duration fill s = do
  current_epoch ← ok_or env.current_epoch std_error
  weight ← calculate_weight x lp_asset unlocking_duration
  let lp_weight = (get_latest_address_weight s env.contract_address lp_asset.denom).1
  new_lp_weight ← change_weight fill lp_weight weight
  next_epoch ← ok_or (checked_add 64 current_epoch 1) panic
  let s' =
      change_history env.contract_address lp_asset.denom (save_entry next_epoch new_lp_weight) s
  let address_lp_weight = (get_latest_address_weight s' receiver lp_asset.denom).1
  new_address_lp_weight ← change_weight fill address_lp_weight weight
  ok (change_history receiver lp_asset.denom (save_entry next_epoch new_address_lp_weight) s')

-- The loop that removes the entries of the epochs in a list.
unfoldable pub remove_entries : List ℕ → Entries → Entries
remove_entries [] es = es
remove_entries (e ∷ epochs) es = remove_entries epochs (remove_entry e es)

unfoldable pub sync_address_lp_weight_history :
    Text → Text → ℕ → Bool → Storage → Result ContractError Storage
sync_address_lp_weight_history address lp_denom current_epoch_id save_last_lp_weight s = do
  earliest ← get_earliest_address_lp_weight s address lp_denom
  let latest = get_latest_address_lp_weight s address lp_denom current_epoch_id
  let s' = change_history address lp_denom (remove_entries (range_to earliest.0 latest.0)) s
  ok (
      if save_last_lp_weight
      then change_history address lp_denom (save_entry current_epoch_id latest.1) s'
      else s')
