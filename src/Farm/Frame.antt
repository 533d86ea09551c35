-- ===== src/Farm/Frame.antt =====
-- What the steps on LP weights leave alone: positions, farms, counters and configuration
-- (update_weights, sync_address_lp_weight_history and reconcile_user_state of farm-manager/src).
use stratosphere_contracts.Base.{ℕ, ◌≡◌, Bool, ok, arith}
use stratosphere_contracts.Base.Text.{Text}
use stratosphere_contracts.Base.Coins.{Coin}
use stratosphere_contracts.Farm.Data.{External, Env, Position}
use stratosphere_contracts.Farm.Storage.{Storage, change_history}
use stratosphere_contracts.Farm.Weights.{update_weights, sync_address_lp_weight_history}
use stratosphere_contracts.Farm.Positions.{clear_lp_weight_history, reconcile_user_state}

pub record SameBooks (s s' : Storage) : Type 0 where
  pub positions : s'.positions ≡ s.positions
  pub farms : s'.farms ≡ s.farms
  pub config : s'.config ≡ s.config
  pub position_id_counter : s'.position_id_counter ≡ s.position_id_counter
  pub farm_counter : s'.farm_counter ≡ s.farm_counter

-- The same as a tuple.
pub books :
    {s s' : Storage}
    → SameBooks s s'
    → (s'.positions ≡ s.positions)
      × (s'.farms ≡ s.farms)
      × (s'.config ≡ s.config)
      × (s'.position_id_counter ≡ s.position_id_counter)
      × (s'.farm_counter ≡ s.farm_counter)
books b = (b.positions, b.farms, b.config, b.position_id_counter, b.farm_counter)

pub update_weights-SameBooks :
    (x : External) (env : Env) (receiver : Text) (lp_asset : Coin) (d : ℕ) (fill : Bool)
    (s : Storage) {s' : Storage}
    → update_weights x env receiver lp_asset d fill s ≡ ok s'
    → SameBooks s s'
unfolding update_weights change_history
update_weights-SameBooks x env receiver lp_asset d fill s h = ground arith

pub sync-SameBooks :
    (address lp_denom : Text) (epoch : ℕ) (save_last : Bool) (s : Storage) {s' : Storage}
    → sync_address_lp_weight_history address lp_denom epoch save_last s ≡ ok s'
    → SameBooks s s'
unfolding sync_address_lp_weight_history change_history
sync-SameBooks address lp_denom epoch save_last s h = ground arith

clear-SameBooks :
    (env : Env) (address lp_denom : Text) (s : Storage) {s' : Storage}
    → clear_lp_weight_history env address lp_denom s ≡ ok s'
    → SameBooks s s'
unfolding clear_lp_weight_history
clear-SameBooks env address lp_denom s h = grind (arith, sync-SameBooks)

pub reconcile-SameBooks :
    (env : Env) (receiver : Text) (position : Position) (s : Storage) {s' : Storage}
    → reconcile_user_state env receiver position s ≡ ok s'
    → SameBooks s s'
unfolding reconcile_user_state
reconcile-SameBooks env receiver position s h = grind (arith, clear-SameBooks)
