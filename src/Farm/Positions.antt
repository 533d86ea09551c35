-- ===== src/Farm/Positions.antt =====
-- The commands on positions: farm-manager/src/position/{commands,helpers}.rs, with
-- validate_lp_denom and validate_identifier of helpers.rs.
use stratosphere_contracts.Base.{
  ℕ, Bool, true, false, ◌&&◌, ◌||◌, not, Option, none, some, List, [], ◌∷◌, ◌++◌, ltb, leb, ◌==◌,
  if◌then◌else◌, all, keep, is_empty, length, Result, ok, err, ◌>>=◌, ◌>>◌, ensure, ok_or,
  unwrap_or, is_some, checked_add, saturating_sub, plus_seconds, seconds,
}
use stratosphere_contracts.Base.Text.{Text, codes, text_eq, is_ascii_alphanumeric, to_string}
use stratosphere_contracts.Base.Coins.{Coin, MessageInfo}
use stratosphere_contracts.Base.Dict.{save, remove}
use stratosphere_contracts.Farm.Data.{
  ContractError, Config, Position, Farm, Send, External, Env, std_error, unauthorized,
  payment_error, overflow_error, asset_mismatch, no_position_found, position_not_expired,
  position_already_closed, invalid_lp_amount, max_positions_per_user_exceeded,
  position_already_exists, invalid_unlocking_duration, invalid_emergency_unlock_penalty,
  invalid_identifier, panic,
}
use stratosphere_contracts.Farm.Storage.{
  Storage, max_items_limit, get_farms_by_lp_denom, get_position, get_positions_by_receiver,
  has_any_lp_weight,
}
use stratosphere_contracts.Farm.Weights.{update_weights, sync_address_lp_weight_history}
use stratosphere_contracts.Farm.Rewards.{unique_texts, validate_no_pending_rewards}

abbrev pub auto_position_id_prefix : Text
auto_position_id_prefix = codes "p-"

abbrev pub explicit_position_id_prefix : Text
explicit_position_id_prefix = codes "u-"

-- `Decimal::percent(50)`
abbrev pub penalty_fee_share : ℕ
penalty_fee_share = 500000000000000000

abbrev max_identifier_length : ℕ
max_identifier_length = 66

-- `helpers::validate_lp_denom`
unfoldable pub validate_lp_denom : External → Text → Text → Result ContractError (Unit {0})
validate_lp_denom x lp_denom pool_manager_addr =
    if x.is_factory_token lp_denom
    then (do
      creator ← ok_or (x.get_factory_token_creator lp_denom) std_error
      ensure (text_eq creator pool_manager_addr) asset_mismatch)
    else err asset_mismatch

is_identifier_char : ℕ → Bool
is_identifier_char c = is_ascii_alphanumeric c || c == b'.' || c == b'-' || c == b'_'

-- `helpers::validate_identifier`
unfoldable pub validate_identifier : Text → Result ContractError (Unit {0})
unfolding is_identifier_char
validate_identifier identifier =
    ensure (leb (length identifier) max_identifier_length && all is_identifier_char identifier)
      (invalid_identifier identifier)

unfoldable pub validate_unlocking_duration_for_position :
    Config → ℕ → Result ContractError (Unit {0})
validate_unlocking_duration_for_position config d =
    if ltb d config.min_unlocking_duration || ltb config.max_unlocking_duration d
    then err
        (invalid_unlocking_duration config.min_unlocking_duration config.max_unlocking_duration d)
    else ok tt

unfoldable pub validate_positions_limit : Storage → Text → Bool → Result ContractError (Unit {0})
validate_positions_limit s receiver open_state =
    ensure
      (ltb (length (get_positions_by_receiver s receiver (some open_state) (some max_items_limit)))
        max_items_limit)
      (max_positions_per_user_exceeded max_items_limit)

unfoldable pub create_penalty_share_msg : Text → ℕ → Text → Send
create_penalty_share_msg lp_asset_denom commission receiver = record {
  to_address = receiver;
  amount = (record { denom = lp_asset_denom; amount = commission }) ∷ [];
}

-- `clear_lp_weight_history`
unfoldable pub clear_lp_weight_history : Env → Text → Text → Storage → Result ContractError Storage
clear_lp_weight_history env address lp_denom s = do
  current_epoch ← ok_or env.current_epoch std_error
  sync_address_lp_weight_history address lp_denom current_epoch false s

unfoldable pub reconcile_user_state : Env → Text → Position → Storage → Result ContractError Storage
reconcile_user_state env receiver position s =
    let open_positions = get_positions_by_receiver s receiver (some true) (some max_items_limit) in
    let s' =
      if is_empty open_positions
      then record s { last_claimed_epoch = remove receiver s.last_claimed_epoch }
      else s in
    if is_empty (keep (λ p. text_eq p.lp_asset.denom position.lp_asset.denom) open_positions)
      && has_any_lp_weight s' receiver position.lp_asset.denom
    then clear_lp_weight_history env receiver position.lp_asset.denom s'
    else ok s'

-- The receiver of a new position: another than the sender only at the pool manager's word.
unfoldable pub position_receiver :
    External → Config → Text → Option Text → Result ContractError Text
position_receiver x config sender none = ok sender
position_receiver x config sender (some receiver) = do
  addr ← ok_or (x.addr_validate receiver) std_error
  ensure (text_eq sender config.pool_manager_addr || text_eq sender addr) unauthorized
  ok addr

-- The identifier of a new position, and the counter that is stored with it.
unfoldable pub position_identifier : Option Text → ℕ → Storage → Text × Storage
position_identifier (some identifier) counter s = (explicit_position_id_prefix ++ identifier, s)
position_identifier none counter s =
    (auto_position_id_prefix ++ to_string counter, record s { position_id_counter = counter })

unfoldable pub create_position :
    External
    → Env
    → MessageInfo
    → Option Text
    → ℕ
    → Option Text
    → Storage
    → Result ContractError (Storage × List Send)
create_position x env info identifier unlocking_duration receiver s = do
  lp_asset ← ok_or (x.one_coin info.funds) payment_error
  validate_lp_denom x lp_asset.denom s.config.pool_manager_addr
  validate_unlocking_duration_for_position s.config unlocking_duration
  owner ← position_receiver x s.config info.sender receiver
  counter ← ok_or (checked_add 64 s.position_id_counter 1) panic
  let id = (position_identifier identifier counter s).0
  let s' = (position_identifier identifier counter s).1
  validate_identifier id
  ensure (not (is_some (get_position s' (some id)))) (position_already_exists id)
  validate_positions_limit s' owner true
  let position : Position = record {
    identifier = id;
    lp_asset = lp_asset;
    unlocking_duration = unlocking_duration;
    is_open = true;
    expiring_at = none;
    receiver = owner;
  }
  s'' ←
      update_weights x env owner lp_asset unlocking_duration true
        (record s' { positions = save id position s'.positions })
  ok (s'', [])

unfoldable pub expand_position :
    External → Env → MessageInfo → Text → Storage → Result ContractError (Storage × List Send)
expand_position x env info identifier s = do
  position ← ok_or (get_position s (some identifier)) (no_position_found identifier)
  lp_asset ← ok_or (x.one_coin info.funds) payment_error
  validate_lp_denom x lp_asset.denom s.config.pool_manager_addr
  ensure (text_eq position.lp_asset.denom lp_asset.denom) asset_mismatch
  ensure position.is_open (position_already_closed position.identifier)
  ensure (text_eq position.receiver info.sender || text_eq info.sender s.config.pool_manager_addr)
      unauthorized
  amount ← ok_or (checked_add 128 position.lp_asset.amount lp_asset.amount) overflow_error
  let position' = record position { lp_asset = record position.lp_asset { amount = amount } }
  s' ←
      update_weights x env position.receiver lp_asset position.unlocking_duration true
        (record s { positions = save position.identifier position' s.positions })
  ok (s', [])

-- `close_position_in_full`, with the position as it becomes.
unfoldable pub close_position_in_full : Position → ℕ → Position × ℕ
close_position_in_full position expires_at =
    (record position { is_open = false; expiring_at = some expires_at }, position.lp_asset.amount)

-- A partial close: the part that closes is stored as a position of its own.
unfoldable pub close_position_partially :
    Position → Coin → ℕ → Storage → Result ContractError (Position × ℕ × Storage)
close_position_partially position lp_asset expires_at s = do
  counter ← ok_or (checked_add 64 s.position_id_counter 1) panic
  let id = auto_position_id_prefix ++ to_string counter
  let partial_position : Position = record {
    identifier = id;
    lp_asset = lp_asset;
    unlocking_duration = position.unlocking_duration;
    is_open = false;
    expiring_at = some expires_at;
    receiver = position.receiver;
  }
  let amount = saturating_sub position.lp_asset.amount lp_asset.amount
  ok (
    record position { lp_asset = record position.lp_asset { amount = amount } },
    lp_asset.amount,
    record s { position_id_counter = counter; positions = save id partial_position s.positions },
  )

-- How much of the position closes: all of it, or the part that was asked for.
unfoldable pub close_amount :
    Position → Option Coin → ℕ → Storage → Result ContractError (Position × ℕ × Storage)
close_amount position none expires_at s =
    let closed = close_position_in_full position expires_at in ok (closed.0, closed.1, s)
close_amount position (some lp_asset) expires_at s = do
  ensure (text_eq lp_asset.denom position.lp_asset.denom) asset_mismatch
  if lp_asset.amount == position.lp_asset.amount
      then (let closed = close_position_in_full position expires_at in ok (closed.0, closed.1, s))
      else if ltb lp_asset.amount position.lp_asset.amount
      then close_position_partially position lp_asset expires_at s
      else err (invalid_lp_amount position.lp_asset.amount lp_asset.amount)

unfoldable pub close_position :
    External
    → Env
    → MessageInfo
    → Text
    → Option Coin
    → Storage
    → Result ContractError (Storage × List Send)
close_position x env info identifier lp_asset s = do
  ensure (x.nonpayable info.funds) payment_error
  validate_no_pending_rewards x env info s
  position ← ok_or (get_position s (some identifier)) (no_position_found identifier)
  ensure (text_eq position.receiver info.sender) unauthorized
  ensure position.is_open (position_already_closed identifier)
  expires ← ok_or (plus_seconds env.block_time position.unlocking_duration) panic
  let expires_at = seconds expires
  validate_positions_limit s info.sender false
  closed ← close_amount position lp_asset expires_at s
  let position' = closed.0
  s' ←
      update_weights x env info.sender (record position'.lp_asset { amount = closed.1 })
        position'.unlocking_duration false closed.2
  s'' ←
      reconcile_user_state env info.sender position'
        (record s' { positions = save identifier position' s'.positions })
  ok (s'', [])

unfoldable pub owners_of : List Farm → List Text
owners_of [] = []
owners_of (f ∷ fs) = f.owner ∷ owners_of fs

-- The messages to the farms' owners, one each.
unfoldable pub owner_shares : Text → ℕ → List Text → List Send
owner_shares lp_denom share [] = []
owner_shares lp_denom share (owner ∷ owners) =
    create_penalty_share_msg lp_denom share owner ∷ owner_shares lp_denom share owners

-- The penalty's messages: a share for each owner of a farm of the denom, and the rest to the fee
-- collector, which gets all where there is no owner or the share would be zero.
unfoldable pub penalty_messages :
    External → Config → Text → List Text → ℕ → Result ContractError (List Send)
penalty_messages x config lp_denom unique_farm_owners total_penalty_fee = do
  whole ← ok_or (x.decimal.from_ratio total_penalty_fee 1) panic
  half ← ok_or (x.decimal.checked_mul whole penalty_fee_share) overflow_error
  let commission = x.decimal.to_uint_floor half
  let rest = saturating_sub total_penalty_fee commission
  let to_collector = λ (amount : ℕ).
      (if ltb 0 amount
        then create_penalty_share_msg lp_denom amount config.fee_collector_addr ∷ []
        else [])
  if is_empty unique_farm_owners then ok (to_collector total_penalty_fee) else (do
    ratio ← ok_or (x.decimal.from_ratio commission (length unique_farm_owners)) panic
    let share = x.decimal.to_uint_floor ratio
    if ltb 0 share
        then ok (owner_shares lp_denom share unique_farm_owners ++ to_collector rest)
        else ok (to_collector total_penalty_fee))

-- The branch of an emergency unlock: the penalty's messages, the new state, and what is left of the
-- position.
unfoldable pub emergency_withdraw :
    External
    → Env
    → MessageInfo
    → Position
    → Storage
    → Result ContractError (List Send × Storage × Position)
emergency_withdraw x env info position s = do
  whole ← ok_or (x.decimal.from_ratio position.lp_asset.amount 1) panic
  penalty ← ok_or (x.decimal.checked_mul whole s.config.emergency_unlock_penalty) overflow_error
  let total_penalty_fee = x.decimal.to_uint_floor penalty
  ensure (ltb total_penalty_fee position.lp_asset.amount) invalid_emergency_unlock_penalty
  let farms = get_farms_by_lp_denom s position.lp_asset.denom (some max_items_limit)
  messages ←
      penalty_messages x s.config position.lp_asset.denom (unique_texts [] (owners_of farms))
        total_penalty_fee
  s' ←
      (if position.is_open
        then update_weights x env info.sender position.lp_asset position.unlocking_duration false s
        else ok s)
  let amount = saturating_sub position.lp_asset.amount total_penalty_fee
  ok (messages, s', record position { lp_asset = record position.lp_asset { amount = amount } })

-- The other branch: only a closed position whose unlocking time has passed.
unfoldable pub expired_withdraw :
    External → Env → Position → Storage → Result ContractError (List Send × Storage × Position)
expired_withdraw x env position s = do
  ensure (is_some position.expiring_at) unauthorized
  ensure (x.is_expired position (seconds env.block_time)) position_not_expired
  ok ([], s, position)

unfoldable pub withdraw_position :
    External
    → Env
    → MessageInfo
    → Text
    → Option Bool
    → Storage
    → Result ContractError (Storage × List Send)
withdraw_position x env info identifier emergency_unlock s = do
  ensure (x.nonpayable info.funds) payment_error
  position ← ok_or (get_position s (some identifier)) (no_position_found identifier)
  ensure (text_eq position.receiver info.sender) unauthorized
  taken ←
      (if unwrap_or emergency_unlock false && not (x.is_expired position (seconds env.block_time))
        then emergency_withdraw x env info position s
        else expired_withdraw x env position s)
  let position' = taken.2
  let messages =
      taken.0
      ++ (if position'.lp_asset.amount == 0
          then []
          else (record { to_address = position'.receiver; amount = position'.lp_asset ∷ [] }) ∷ [])
  let s' = record taken.1 { positions = remove identifier taken.1.positions }
  s'' ← (if position'.is_open then reconcile_user_state env info.sender position' s' else ok s')
  ok (s'', messages)
