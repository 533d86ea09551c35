-- ===== src/Farm/Rewards.antt =====
-- Rewards: farm-manager/src/farm/commands.rs, with query_rewards of queries.rs and
-- get_unique_lp_asset_denoms_from_positions of helpers.rs.
use stratosphere_contracts.Base.{
  ℕ, ◌-◌, Bool, true, false, not, Option, none, some, List, [], ◌∷◌, ◌++◌, ltb, leb, ◌==◌,
  if◌then◌else◌, any, is_empty, range_to, Result, ok, err, ◌>>=◌, ◌>>◌, ensure, ok_or, unwrap_or,
  checked_add, checked_multiply_ratio,
}
use stratosphere_contracts.Base.Text.{Text, text_eq, text_lt}
use stratosphere_contracts.Base.Coins.{Coin, MessageInfo}
use stratosphere_contracts.Base.Dict.{Dict, may_load, save}
use stratosphere_contracts.Farm.Data.{
  ContractError, Position, Farm, Send, External, Env, std_error, unauthorized, payment_error,
  overflow_error, checked_multiply_fraction_error, no_open_positions, farm_exhausted,
  pending_rewards, panic,
}
use stratosphere_contracts.Farm.Storage.{
  Storage, Entries, entry_at, max_items_limit, get_farms_by_lp_denom, get_positions_by_receiver,
  get_earliest_address_lp_weight,
}
use stratosphere_contracts.Farm.Weights.{sync_address_lp_weight_history}

-- A `HashMap<EpochId, Uint128>` is a list here, the newest entry of a key first.

unfoldable pub compute_start_from_epoch_for_address :
    Storage → Text → Option ℕ → Text → Result ContractError ℕ
compute_start_from_epoch_for_address s lp_denom (some last_claimed_epoch) receiver =
    ok_or (checked_add 64 last_claimed_epoch 1) panic
compute_start_from_epoch_for_address s lp_denom none receiver = do
  earliest ← get_earliest_address_lp_weight s receiver lp_denom
  ok earliest.0

-- The loop of `compute_address_weights`: an epoch without an entry has the weight seen last.
unfoldable pub fill_weights : Entries → List ℕ → ℕ → Entries → Entries
fill_weights history [] last_weight_seen address_weights = address_weights
fill_weights history (epoch_id ∷ epochs) last_weight_seen address_weights =
    let weight = unwrap_or (entry_at epoch_id history) last_weight_seen in
    fill_weights history epochs weight ((epoch_id, weight) ∷ address_weights)

unfoldable pub compute_address_weights :
    Storage → Text → Text → ℕ → ℕ → Result ContractError Entries
compute_address_weights s address lp_asset_denom start_from_epoch current_epoch_id = do
  ensure (ltb 0 start_from_epoch) panic
  ok (
      fill_weights (s.lp_weight_history address lp_asset_denom)
        (range_to (start_from_epoch - 1) current_epoch_id) 0 [])

-- The loop of `compute_contract_weights`: it keeps only the epochs from `start_from_epoch` on.
unfoldable pub fill_contract_weights : Entries → ℕ → List ℕ → ℕ → Entries → Entries
fill_contract_weights history start_from_epoch [] last_weight_seen weights = weights
fill_contract_weights history start_from_epoch (epoch_id ∷ epochs) last_weight_seen weights =
    let weight = unwrap_or (entry_at epoch_id history) last_weight_seen in
    fill_contract_weights history start_from_epoch epochs weight
      (if leb start_from_epoch epoch_id then (epoch_id, weight) ∷ weights else weights)

unfoldable pub compute_contract_weights :
    Storage → Text → Text → ℕ → ℕ → Result ContractError Entries
compute_contract_weights s contract lp_asset_denom start_from_epoch current_epoch_id =
    let history = s.lp_weight_history contract lp_asset_denom in
    elim (entry_at start_from_epoch history) [
      | some weight ↦ do
        next ← ok_or (checked_add 64 start_from_epoch 1) panic
        ok (
            fill_contract_weights history start_from_epoch (range_to next current_epoch_id) weight
              ((start_from_epoch, weight) ∷ []))
      | none ↦ elim (get_earliest_address_lp_weight s contract lp_asset_denom) [
        | err e ↦ err unauthorized
        | ok (earliest_epoch_id, weight) ↦ do
          next ← ok_or (checked_add 64 earliest_epoch_id 1) panic
          ok (
              fill_contract_weights history start_from_epoch (range_to next current_epoch_id) weight
                [])
      ]
    ]

-- The emission rate for each epoch of a list.
unfoldable pub emit_rates : ℕ → List ℕ → Entries → Entries
emit_rates rate [] farm_emissions = farm_emissions
emit_rates rate (epoch ∷ epochs) farm_emissions =
    emit_rates rate epochs ((epoch, rate) ∷ farm_emissions)

unfoldable pub compute_farm_emissions : Farm → ℕ → ℕ → Result ContractError (Entries × ℕ)
compute_farm_emissions farm start_from_epoch current_epoch_id = do
  until_epoch ←
      (if leb farm.preliminary_end_epoch current_epoch_id
        then (if farm.preliminary_end_epoch == 0
            then err panic
            else ok (farm.preliminary_end_epoch - 1))
        else ok current_epoch_id)
  ok (emit_rates farm.emission_rate (range_to start_from_epoch until_epoch) [], until_epoch)

pub data RewardsResponse : Type 0 where
  rewards_response : List Coin → List (Text × List Coin) → RewardsResponse
  query_rewards_response : List Coin → RewardsResponse
  claim_rewards : List Coin → Dict ℕ → RewardsResponse

-- The accumulators of `calculate_rewards`: `rewards` and `modified_farms`.
pub record Accrued : Type 0 where
  pub rewards : List Coin
  pub modified_farms : Dict ℕ

-- One round of the loop over the epochs: the reward is the emission times the user's share.
unfoldable pub accrue_epoch :
    Farm → Entries → Entries → Entries → Bool → ℕ → Accrued → Result ContractError Accrued
accrue_epoch farm user_weights contract_weights farm_emissions is_claim epoch_id acc =
    if ltb epoch_id farm.start_epoch then ok acc else do
      user_weight ← ok_or (entry_at epoch_id user_weights) panic
      let total_lp_weight = unwrap_or (entry_at epoch_id contract_weights) 0
      let emission = unwrap_or (entry_at epoch_id farm_emissions) 0
      reward ←
          ok_or (checked_multiply_ratio 128 emission user_weight total_lp_weight)
            checked_multiply_fraction_error
      paid ← ok_or (checked_add 128 reward farm.claimed_amount) overflow_error
      ensure (leb paid farm.farm_asset.amount) farm_exhausted
      let rewards =
          (if ltb 0 reward
            then acc.rewards ++ (record { denom = farm.farm_asset.denom; amount = reward }) ∷ []
            else acc.rewards)
      let maybe_reward = unwrap_or (may_load farm.identifier acc.modified_farms) 0
      if is_claim
          then (do
            total ← ok_or (checked_add 128 reward maybe_reward) overflow_error
            ok (record {
              rewards = rewards;
              modified_farms = save farm.identifier total acc.modified_farms;
            }))
          else ok (record acc { rewards = rewards })

unfoldable pub accrue_epochs :
    Farm → Entries → Entries → Entries → Bool → List ℕ → Accrued → Result ContractError Accrued
accrue_epochs farm user_weights contract_weights farm_emissions is_claim [] acc = ok acc
accrue_epochs farm user_weights contract_weights farm_emissions is_claim (e ∷ epochs) acc =
    accrue_epoch farm user_weights contract_weights farm_emissions is_claim e acc >>= λ acc'.
    accrue_epochs farm user_weights contract_weights farm_emissions is_claim epochs acc'

-- One round of the loop over the farms.
unfoldable pub accrue_farm :
    Env
    → Storage
    → Text
    → Text
    → ℕ
    → Bool
    → Option ℕ
    → Farm
    → Accrued
    → Result ContractError Accrued
accrue_farm env s lp_denom receiver current_epoch_id is_claim last_claimed_epoch farm acc =
    if ltb current_epoch_id farm.start_epoch then ok acc else do
      start_from_epoch ←
          compute_start_from_epoch_for_address s farm.lp_denom last_claimed_epoch receiver
      user_weights ← compute_address_weights s receiver lp_denom start_from_epoch current_epoch_id
      contract_weights ←
          compute_contract_weights s env.contract_address lp_denom start_from_epoch current_epoch_id
      emissions ← compute_farm_emissions farm start_from_epoch current_epoch_id
      accrue_epochs farm user_weights contract_weights emissions.0 is_claim
          (range_to start_from_epoch emissions.1) acc

unfoldable pub accrue_farms :
    Env
    → Storage
    → Text
    → Text
    → ℕ
    → Bool
    → Option ℕ
    → List Farm
    → Accrued
    → Result ContractError Accrued
accrue_farms env s lp_denom receiver current_epoch_id is_claim last_claimed_epoch [] acc = ok acc
accrue_farms env s lp_denom receiver current_epoch_id is_claim last_claimed_epoch (farm ∷ farms)
      acc =
    accrue_farm env s lp_denom receiver current_epoch_id is_claim last_claimed_epoch farm acc
    >>= λ acc'.
        accrue_farms env s lp_denom receiver current_epoch_id is_claim last_claimed_epoch farms acc'

-- Whether the last claim was made in the current epoch.
claimed_now : Option ℕ → ℕ → Bool
claimed_now none current_epoch_id = false
claimed_now (some last_claimed_epoch) current_epoch_id = current_epoch_id == last_claimed_epoch

respond : Bool → List Coin → Dict ℕ → RewardsResponse
respond true rewards modified_farms = claim_rewards rewards modified_farms
respond false rewards modified_farms = query_rewards_response rewards

unfoldable pub calculate_rewards :
    External → Env → Storage → Text → Text → ℕ → Bool → Result ContractError RewardsResponse
unfolding claimed_now respond
calculate_rewards x env s lp_denom receiver current_epoch_id is_claim =
    let farms = get_farms_by_lp_denom s lp_denom (some s.config.max_concurrent_farms) in
    let last_claimed_epoch = may_load receiver s.last_claimed_epoch in
    if claimed_now last_claimed_epoch current_epoch_id then ok (respond is_claim [] []) else do
      acc ←
          accrue_farms env s lp_denom receiver current_epoch_id is_claim last_claimed_epoch farms
            (record { rewards = []; modified_farms = [] })
      rewards ← ok_or (x.aggregate_coins acc.rewards) std_error
      ok (respond is_claim rewards acc.modified_farms)

-- The denoms of a list of positions, each once. The source collects them in a hash set, whose order
-- is arbitrary; here each denom stands where it comes first.
unfoldable pub unique_texts : List Text → List Text → List Text
unique_texts seen [] = seen
unique_texts seen (d ∷ ds) = unique_texts (if any (text_eq d) seen then seen else seen ++ d ∷ []) ds

lp_denoms_of : List Position → List Text
lp_denoms_of [] = []
lp_denoms_of (p ∷ ps) = p.lp_asset.denom ∷ lp_denoms_of ps

unfoldable pub get_unique_lp_asset_denoms_from_positions : List Position → List Text
unfolding lp_denoms_of
get_unique_lp_asset_denoms_from_positions positions = unique_texts [] (lp_denoms_of positions)

-- `FARMS.update` in `claim`: the claimed amount grows, and may not pass the farm's asset.
unfoldable pub claim_from_farm : ℕ → Text → ℕ → Storage → Result ContractError Storage
claim_from_farm current_epoch_id farm_identifier claimed_reward s = do
  farm ← ok_or (may_load farm_identifier s.farms) panic
  claimed_amount ← ok_or (checked_add 128 farm.claimed_amount claimed_reward) overflow_error
  ensure (leb claimed_amount farm.farm_asset.amount) farm_exhausted
  ok (record s {
    farms =
        save farm_identifier
          (record farm { claimed_amount = claimed_amount; last_epoch_claimed = current_epoch_id })
          s.farms;
  })

unfoldable pub claim_from_farms : ℕ → Dict ℕ → Storage → Result ContractError Storage
claim_from_farms current_epoch_id [] s = ok s
claim_from_farms current_epoch_id ((farm_identifier, reward) ∷ rest) s =
    claim_from_farm current_epoch_id farm_identifier reward s >>= λ s'.
    claim_from_farms current_epoch_id rest s'

-- The match of `claim` on the rewards of a denom: they are taken off the farms, and the weights are
-- settled.
unfoldable pub claim_response :
    Text
    → ℕ
    → Text
    → List Coin
    → Storage
    → RewardsResponse
    → Result ContractError (List Coin × Storage)
claim_response sender current_epoch_id lp_denom total_rewards s
      (claim_rewards rewards modified_farms) =
    do
      s' ← claim_from_farms current_epoch_id modified_farms s
      s'' ← sync_address_lp_weight_history sender lp_denom current_epoch_id true s'
      ok (total_rewards ++ rewards, s'')
claim_response sender current_epoch_id lp_denom total_rewards s (rewards_response rewards per_lp) =
    err unauthorized
claim_response sender current_epoch_id lp_denom total_rewards s (query_rewards_response rewards) =
    err unauthorized

-- One round of the loop of `claim` over the LP denoms.
unfoldable pub claim_denom :
    External
    → Env
    → Text
    → ℕ
    → Text
    → List Coin × Storage
    → Result ContractError (List Coin × Storage)
claim_denom x env sender current_epoch_id lp_denom (total_rewards, s) =
    calculate_rewards x env s lp_denom sender current_epoch_id true
    >>= claim_response sender current_epoch_id lp_denom total_rewards s

unfoldable pub claim_denoms :
    External
    → Env
    → Text
    → ℕ
    → List Text
    → List Coin × Storage
    → Result ContractError (List Coin × Storage)
claim_denoms x env sender current_epoch_id [] acc = ok acc
claim_denoms x env sender current_epoch_id (d ∷ lp_denoms) acc =
    claim_denom x env sender current_epoch_id d acc >>= λ acc'.
    claim_denoms x env sender current_epoch_id lp_denoms acc'

unfoldable pub claim :
    External → Env → MessageInfo → Storage → Result ContractError (Storage × List Send)
claim x env info s = do
  ensure (x.nonpayable info.funds) payment_error
  let open_positions = get_positions_by_receiver s info.sender (some true) (some max_items_limit)
  ensure (not (is_empty open_positions)) no_open_positions
  current_epoch ← ok_or env.current_epoch std_error
  claimed ←
      claim_denoms x env info.sender current_epoch
        (get_unique_lp_asset_denoms_from_positions open_positions) ([], s)
  let s' = claimed.1
  let s'' = record s' { last_claimed_epoch = save info.sender current_epoch s'.last_claimed_epoch }
  if is_empty claimed.0 then ok (s'', []) else (do
    amount ← ok_or (x.aggregate_coins claimed.0) std_error
    ok (s'', (record { to_address = info.sender; amount = amount }) ∷ []))

-- `sort_by(|a, b| a.0.cmp(&b.0))`, as an insertion sort.
insert_by_denom : Text × List Coin → List (Text × List Coin) → List (Text × List Coin)
insert_by_denom e [] = e ∷ []
insert_by_denom e (f ∷ fs) = if text_lt f.0 e.0 then f ∷ insert_by_denom e fs else e ∷ f ∷ fs

sort_by_denom : List (Text × List Coin) → List (Text × List Coin)
unfolding insert_by_denom
sort_by_denom [] = []
sort_by_denom (e ∷ es) = insert_by_denom e (sort_by_denom es)

-- The loop of `query_rewards`, and `query_rewards`.
unfoldable pub query_denoms :
    External → Env → Storage → Text → ℕ → List Text → Result ContractError (List (Text × List Coin))
query_denoms x env s receiver current_epoch_id [] = ok []
query_denoms x env s receiver current_epoch_id (d ∷ lp_denoms) =
    let rest = query_denoms x env s receiver current_epoch_id lp_denoms in
    calculate_rewards x env s d receiver current_epoch_id false >>= elim [
      | query_rewards_response rewards ↦ rest >>= λ others. ok ((d, rewards) ∷ others)
      | _ ↦ err unauthorized
    ]

unfoldable pub all_rewards : List (Text × List Coin) → List Coin
all_rewards [] = []
all_rewards ((d, rewards) ∷ rest) = rewards ++ all_rewards rest

unfoldable pub query_rewards :
    External → Env → Storage → Text → Result ContractError RewardsResponse
unfolding sort_by_denom
query_rewards x env s address = do
  receiver ← ok_or (x.addr_validate address) std_error
  let open_positions = get_positions_by_receiver s receiver (some true) (some max_items_limit)
  if is_empty open_positions then ok (rewards_response [] []) else (do
    current_epoch ← ok_or env.current_epoch std_error
    rewards_per_lp ←
        query_denoms x env s receiver current_epoch
          (get_unique_lp_asset_denoms_from_positions open_positions)
    total_rewards ← ok_or (x.aggregate_coins (all_rewards rewards_per_lp)) std_error
    ok (rewards_response total_rewards (sort_by_denom rewards_per_lp)))

-- `position/helpers.rs`: no operation on a position while rewards wait.
unfoldable pub validate_no_pending_rewards :
    External → Env → MessageInfo → Storage → Result ContractError (Unit {0})
validate_no_pending_rewards x env info s = query_rewards x env s info.sender >>= elim [
  | rewards_response total_rewards per_lp ↦ ensure (is_empty total_rewards) pending_rewards
  | _ ↦ err unauthorized
]
