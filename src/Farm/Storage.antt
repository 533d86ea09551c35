-- ===== src/Farm/Storage.antt =====
-- The storage of farm-manager/src/state.rs and its readers.
use stratosphere_contracts.Base.{
  ℕ, Bool, true, false, ◌&&◌, Option, none, some, List, [], ◌∷◌, ltb, ◌==◌, if◌then◌else◌, min,
  take, keep, head?, last?, Result, ok_or, unwrap_or, is_some,
}
use stratosphere_contracts.Base.Text.{Text, text_eq}
use stratosphere_contracts.Base.Dict.{Dict, may_load, values}
use stratosphere_contracts.Farm.Data.{
  ContractError, Config, Position, Farm, non_existent_farm, no_open_positions,
}

-- The weights of one address for one LP denom, by epoch: the entries of `LP_WEIGHT_HISTORY` under
-- the prefix (address, lp_denom), in ascending order.
abbrev pub Entries : Type 0
Entries = List (ℕ × ℕ)

pub record Storage : Type 0 where
  pub config : Config
  pub position_id_counter : ℕ
  pub positions : Dict Position
  pub last_claimed_epoch : Dict ℕ
  pub lp_weight_history : Text → Text → Entries
  pub farm_counter : ℕ
  pub farms : Dict Farm

unfoldable pub entry_at : ℕ → Entries → Option ℕ
entry_at e [] = none
entry_at e ((k, w) ∷ es) = if k == e then some w else entry_at e es

unfoldable pub save_entry : ℕ → ℕ → Entries → Entries
save_entry e v [] = (e, v) ∷ []
save_entry e v ((k, w) ∷ es) =
    if k == e
    then (e, v) ∷ es
    else if ltb e k
    then (e, v) ∷ (k, w) ∷ es
    else (k, w) ∷ save_entry e v es

unfoldable pub remove_entry : ℕ → Entries → Entries
remove_entry e [] = []
remove_entry e ((k, w) ∷ es) = if k == e then remove_entry e es else (k, w) ∷ remove_entry e es

-- A write under one prefix.
unfoldable pub change_history : Text → Text → (Entries → Entries) → Storage → Storage
change_history address lp_denom f s = record s {
  lp_weight_history = λ a d.
      if text_eq a address && text_eq d lp_denom
      then f (s.lp_weight_history a d)
      else s.lp_weight_history a d;
}

abbrev pub max_items_limit : ℕ
max_items_limit = 100

abbrev default_limit : ℕ
default_limit = 10

unfoldable pub page : Option ℕ → ℕ
page limit = min (unwrap_or limit default_limit) max_items_limit

-- The readers below take no `start_after`: every command of the contract passes `None`.
unfoldable pub get_farms_by_lp_denom : Storage → Text → Option ℕ → List Farm
unfolding page values
get_farms_by_lp_denom s lp_denom limit =
    take (page limit) (keep (λ f. text_eq f.lp_denom lp_denom) (values s.farms))

unfoldable pub get_farm_by_identifier : Storage → Text → Result ContractError Farm
get_farm_by_identifier s farm_identifier =
    ok_or (may_load farm_identifier s.farms) non_existent_farm

unfoldable pub get_position : Storage → Option Text → Option Position
get_position s none = none
get_position s (some identifier) = may_load identifier s.positions

same_state : Bool → Bool → Bool
same_state true b = b
same_state false true = false
same_state false false = true

has_state : Option Bool → Position → Bool
unfolding same_state
has_state none p = true
has_state (some b) p = same_state b p.is_open

unfoldable pub get_positions_by_receiver : Storage → Text → Option Bool → Option ℕ → List Position
unfolding page has_state values
get_positions_by_receiver s receiver open_state limit =
    take (page limit)
      (keep (λ p. text_eq p.receiver receiver && has_state open_state p) (values s.positions))

unfoldable pub get_earliest_address_lp_weight : Storage → Text → Text → Result ContractError (ℕ × ℕ)
get_earliest_address_lp_weight s address lp_denom =
    ok_or (head? (s.lp_weight_history address lp_denom)) no_open_positions

unfoldable pub has_any_lp_weight : Storage → Text → Text → Bool
has_any_lp_weight s address lp_denom = is_some (head? (s.lp_weight_history address lp_denom))

unfoldable pub get_latest_address_lp_weight : Storage → Text → Text → ℕ → ℕ × ℕ
get_latest_address_lp_weight s address lp_denom epoch_id =
    unwrap_or (last? (s.lp_weight_history address lp_denom)) (epoch_id, 0)
