-- ===== src/Farm/Manager.antt =====
-- The commands on farms and the configuration: farm-manager/src/manager/commands.rs, contract.rs,
-- and the validations of helpers.rs.
use stratosphere_contracts.Base.{
  ℕ, ◌-◌, ◌%◌, Bool, true, false, ◌&&◌, ◌||◌, not, Option, none, some, List, [], ◌∷◌, ◌++◌, ltb,
  leb, ◌==◌, if◌then◌else◌, find, length, Result, ok, err, ◌>>=◌, ◌>>◌, ensure, ok_or, unwrap_or,
  is_ok, checked_add, checked_div, try_into, saturating_sub, plus_seconds,
}
use stratosphere_contracts.Base.Text.{Text, codes, text_eq, to_string}
use stratosphere_contracts.Base.Coins.{Coin, MessageInfo}
use stratosphere_contracts.Base.Dict.{save, remove}
use stratosphere_contracts.Farm.Data.{
  ContractError, Config, Farm, FarmParams, Send, External, Env, std_error, unauthorized,
  payment_error, overflow_error, conversion_overflow_error, divide_by_zero_error, panic,
  checked_multiply_fraction_error, farm_already_exists, non_existent_farm, invalid_farm_amount,
  farm_fee_missing, farm_ends_in_past, farm_fee_not_paid, farm_start_time_after_end_time,
  farm_start_too_far, farm_already_expired, asset_mismatch, too_many_farms, invalid_epoch,
  invalid_expansion_amount,
}
use stratosphere_contracts.Farm.Storage.{Storage, get_farms_by_lp_denom, get_farm_by_identifier}
use stratosphere_contracts.Farm.Positions.{validate_lp_denom, validate_identifier}

abbrev pub auto_farm_id_prefix : Text
auto_farm_id_prefix = codes "f-"

abbrev pub explicit_farm_id_prefix : Text
explicit_farm_id_prefix = codes "m-"

send : Text → Coin → Send
send to coin = record { to_address = to; amount = coin ∷ [] }

-- What is paid beyond the fee: it must be the farm's asset, or it is sent back.
fee_refund : MessageInfo → Coin → FarmParams → ℕ → Result ContractError (List Send)
unfolding send
fee_refund info fee params paid_fee_amount =
    if paid_fee_amount == fee.amount
    then ok []
    else if ltb paid_fee_amount fee.amount
    then err (farm_fee_not_paid paid_fee_amount fee.amount)
    else if text_eq fee.denom params.farm_asset.denom
    then (do
      total ← ok_or (checked_add 128 params.farm_asset.amount fee.amount) overflow_error
      ensure (total == paid_fee_amount) asset_mismatch
      ok [])
    else ok (
        send info.sender
          (record { denom = fee.denom; amount = saturating_sub paid_fee_amount fee.amount })
        ∷ [])

-- `helpers::process_farm_creation_fee`
unfoldable pub process_farm_creation_fee :
    Config → MessageInfo → FarmParams → Result ContractError (List Send)
unfolding fee_refund send
process_farm_creation_fee config info params =
    let fee = config.create_farm_fee in
    do
      paid ← ok_or (find (λ c. text_eq c.denom fee.denom) info.funds) farm_fee_missing
      refund ← fee_refund info fee params paid.amount
      ok (if ltb 0 fee.amount then refund ++ send config.fee_collector_addr fee ∷ [] else refund)

-- `helpers::assert_farm_asset`
unfoldable pub assert_farm_asset : MessageInfo → Coin → FarmParams → Result ContractError (Unit {0})
assert_farm_asset info fee params = do
  coin_sent ← ok_or (find (λ c. text_eq c.denom params.farm_asset.denom) info.funds) asset_mismatch
  if not (text_eq fee.denom params.farm_asset.denom)
      then (do
        ensure (coin_sent.amount == params.farm_asset.amount) asset_mismatch
        ensure (length info.funds == 2) asset_mismatch)
      else (do
        total ← ok_or (checked_add 128 params.farm_asset.amount fee.amount) overflow_error
        ensure (total == coin_sent.amount) asset_mismatch
        ensure (length info.funds == 1) asset_mismatch)

-- `option.unwrap_or(fallible)`: the fallback is computed before the option is looked at.
or_computed : Option ℕ → Result ContractError ℕ → Result ContractError ℕ
or_computed o fallback = fallback >>= λ d. ok (unwrap_or o d)

-- `helpers::validate_farm_epochs`
unfoldable pub validate_farm_epochs : External → FarmParams → ℕ → ℕ → Result ContractError (ℕ × ℕ)
unfolding or_computed
validate_farm_epochs x params current_epoch max_farm_epoch_buffer = do
  start_epoch ← or_computed params.start_epoch (ok_or (checked_add 64 current_epoch 1) panic)
  ensure (ltb 0 start_epoch) (invalid_epoch (codes "start"))
  end_epoch ←
      or_computed params.preliminary_end_epoch
        (ok_or (checked_add 64 start_epoch x.default_farm_duration) (invalid_epoch (codes "end")))
  ensure (ltb start_epoch end_epoch) farm_start_time_after_end_time
  ensure (ltb current_epoch end_epoch) farm_ends_in_past
  latest_start ← ok_or (checked_add 64 current_epoch max_farm_epoch_buffer) overflow_error
  ensure (leb start_epoch latest_start) farm_start_too_far
  ok (start_epoch, end_epoch)

-- `helpers::is_farm_expired`: nothing is left to claim, or the expiration time has passed since the
-- farm ended.
unfoldable pub is_farm_expired : Env → Config → Farm → Result ContractError Bool
is_farm_expired env config farm = do
  after_end ← ok_or (checked_add 64 farm.preliminary_end_epoch 1) panic
  farm_ending_at ← ok_or (env.epoch_start after_end) std_error
  if saturating_sub farm.farm_asset.amount farm.claimed_amount == 0 then ok true else (do
    expires_at ← ok_or (plus_seconds farm_ending_at config.farm_expiration_time) panic
    ok (ltb expires_at env.block_time))

-- `is_farm_expired(…).unwrap_or(false)`; a panic is no error that `unwrap_or` sees.
unfoldable pub expired_or_false : Result ContractError Bool → Result ContractError Bool
expired_or_false (ok b) = ok b
expired_or_false (err panic) = err panic
expired_or_false (err e) = ok false

-- `partition`: the expired farms, and the others.
unfoldable pub partition_expired :
    Env → Config → List Farm → Result ContractError (List Farm × List Farm)
partition_expired env config [] = ok ([], [])
partition_expired env config (farm ∷ farms) =
    let rest = partition_expired env config farms in
    expired_or_false (is_farm_expired env config farm) >>= λ expired.
    rest >>= λ parts. ok (if expired then (farm ∷ parts.0, parts.1) else (parts.0, farm ∷ parts.1))

-- `close_farms`: each farm is removed, and what was not claimed goes back to its owner.
unfoldable pub close_farms : List Farm → Storage → Storage × List Send
unfolding send
close_farms [] s = (s, [])
close_farms (farm ∷ farms) s =
    let amount = saturating_sub farm.farm_asset.amount farm.claimed_amount in
    let rest = close_farms farms (record s { farms = remove farm.identifier s.farms }) in
    (
      rest.0,
      (if ltb 0 amount
          then send farm.owner (record farm.farm_asset { amount = amount }) ∷ rest.1
          else rest.1),
    )

unfoldable pub close_farm :
    External → MessageInfo → Text → Storage → Result ContractError (Storage × List Send)
close_farm x info farm_identifier s = do
  ensure (x.nonpayable info.funds) payment_error
  farm ← get_farm_by_identifier s farm_identifier
  ensure (text_eq farm.owner info.sender || x.is_owner info.sender) unauthorized
  ok (close_farms (farm ∷ []) s)

-- The identifier of a new farm, and the counter that is stored with it.
unfoldable pub farm_id : Option Text → Storage → Result ContractError (Text × Storage)
farm_id (some id) s = ok (explicit_farm_id_prefix ++ id, s)
farm_id none s = do
  counter ← ok_or (checked_add 64 s.farm_counter 1) panic
  ok (auto_farm_id_prefix ++ to_string counter, record s { farm_counter = counter })

unfoldable pub create_farm :
    External → Env → MessageInfo → FarmParams → Storage → Result ContractError (Storage × List Send)
create_farm x env info params s = do
  validate_lp_denom x params.lp_denom s.config.pool_manager_addr
  let all_farms = get_farms_by_lp_denom s params.lp_denom (some s.config.max_concurrent_farms)
  current_epoch ← ok_or env.current_epoch std_error
  parts ← partition_expired env s.config all_farms
  let closed = close_farms parts.0 s
  ensure (ltb (length parts.1) s.config.max_concurrent_farms)
      (too_many_farms s.config.max_concurrent_farms)
  ensure (leb x.min_farm_amount params.farm_asset.amount) (invalid_farm_amount x.min_farm_amount)
  let fee = s.config.create_farm_fee
  fee_messages ← (if fee.amount == 0 then ok [] else process_farm_creation_fee s.config info params)
  assert_farm_asset info fee params
  epochs ← validate_farm_epochs x params current_epoch s.config.max_farm_epoch_buffer
  id ← farm_id params.farm_identifier closed.0
  validate_identifier id.0
  ensure (not (is_ok (get_farm_by_identifier id.1 id.0))) farm_already_exists
  emission_rate ←
      ok_or (checked_div params.farm_asset.amount (saturating_sub epochs.1 epochs.0))
        checked_multiply_fraction_error
  let farm : Farm = record {
    identifier = id.0;
    start_epoch = epochs.0;
    preliminary_end_epoch = epochs.1;
    farm_asset = params.farm_asset;
    lp_denom = params.lp_denom;
    owner = info.sender;
    claimed_amount = 0;
    emission_rate = emission_rate;
    last_epoch_claimed = epochs.0 - 1;
  }
  ok (record id.1 { farms = save id.0 farm id.1.farms }, closed.1 ++ fee_messages)

-- Two coins are the same.
coin_eq : Coin → Coin → Bool
coin_eq a b = a.amount == b.amount && text_eq a.denom b.denom

unfoldable pub expand_farm :
    External
    → Env
    → MessageInfo
    → Farm
    → FarmParams
    → Storage
    → Result ContractError (Storage × List Send)
unfolding coin_eq
expand_farm x env info farm params s = do
  ensure (text_eq farm.owner info.sender) unauthorized
  expired ← is_farm_expired env s.config farm
  ensure (not expired) farm_already_expired
  validate_lp_denom x params.lp_denom s.config.pool_manager_addr
  reward ← ok_or (x.one_coin info.funds) payment_error
  ensure (coin_eq reward params.farm_asset) asset_mismatch
  ensure (text_eq farm.farm_asset.denom params.farm_asset.denom) asset_mismatch
  -- `%` on Uint128 panics on a zero divisor
  ensure (not (farm.emission_rate == 0)) panic
  ensure ((reward.amount % farm.emission_rate) == 0) (invalid_expansion_amount farm.emission_rate)
  amount ← ok_or (checked_add 128 farm.farm_asset.amount reward.amount) overflow_error
  additional_epochs ←
      ok_or (checked_div params.farm_asset.amount farm.emission_rate) divide_by_zero_error
  epochs ← ok_or (try_into 64 additional_epochs) conversion_overflow_error
  end_epoch ← ok_or (checked_add 64 farm.preliminary_end_epoch epochs) (invalid_epoch (codes "end"))
  let farm' = record farm {
    farm_asset = record farm.farm_asset { amount = amount };
    preliminary_end_epoch = end_epoch;
  }
  ok (record s { farms = save farm.identifier farm' s.farms }, [])

-- The farm that the given identifier names, if there is one.
unfoldable pub named_farm : Option Text → Storage → Result ContractError Farm
named_farm none s = err non_existent_farm
named_farm (some farm_identifier) s = get_farm_by_identifier s farm_identifier

-- `fill_farm`: a farm that is found is expanded; otherwise one is created.
unfoldable pub fill_found :
    External
    → Env
    → MessageInfo
    → FarmParams
    → Storage
    → Result ContractError Farm
    → Result ContractError (Storage × List Send)
fill_found x env info params s (ok farm) = expand_farm x env info farm params s
fill_found x env info params s (err e) = create_farm x env info params s

unfoldable pub fill_farm :
    External → Env → MessageInfo → FarmParams → Storage → Result ContractError (Storage × List Send)
fill_farm x env info params s = fill_found x env info params s (named_farm params.farm_identifier s)
