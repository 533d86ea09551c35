-- ===== src/Farm/Invariant/Farms.antt =====
-- The commands of farm-manager/src/manager/commands.rs keep farms at their identifiers, and no farm
-- gives more than it has.
use stratosphere_contracts.Base.{◌≡◌, List, arith, some, ok}
use stratosphere_contracts.Base.Text.{Text}
use stratosphere_contracts.Base.Coins.{MessageInfo}
use stratosphere_contracts.Base.Dict.{may_load}
use stratosphere_contracts.Farm.Data.{Farm, FarmParams, Send, External, Env}
use stratosphere_contracts.Farm.Storage.{Storage}
use stratosphere_contracts.Farm.Manager.{create_farm, expand_farm, close_farm, farm_id}
use stratosphere_contracts.Farm.Keys.{IsKept, save-FarmsKept, farm-kept}
use stratosphere_contracts.Farm.Solvency.Closing.{close_farms-kept}

module _ (x : External) (env : Env) (info : MessageInfo) where
  pub close_farm-IsKept :
      (farm_identifier : Text) (s : Storage) (out : Storage × List Send)
      → IsKept s
      → close_farm x info farm_identifier s ≡ ok out
      → IsKept out.0
  unfolding close_farm
  close_farm-IsKept farm_identifier s out kept h = record {
    positions = grind (arith, close_farms-kept, kept.positions);
    farms = grind (arith, close_farms-kept, kept.farms);
  }

  pub expand_farm-IsKept :
      (farm : Farm) (params : FarmParams) (s : Storage) (out : Storage × List Send)
      → IsKept s
      → may_load farm.identifier s.farms ≡ some farm
      → expand_farm x env info farm params s ≡ ok out
      → IsKept out.0
  unfolding expand_farm
  expand_farm-IsKept farm params s out kept found h = record {
    positions = grind (arith, kept.positions);
    farms = grind (
      arith,
      save-FarmsKept,
      kept.farms,
      farm-kept farm.identifier farm s.farms kept.farms found,
    );
  }

  pub create_farm-IsKept :
      (params : FarmParams) (s : Storage) (out : Storage × List Send)
      → IsKept s
      → create_farm x env info params s ≡ ok out
      → IsKept out.0
  unfolding create_farm farm_id
  create_farm-IsKept params s out kept h = record {
    positions = grind (arith, close_farms-kept, kept.positions);
    farms = grind (arith, save-FarmsKept, close_farms-kept, kept.farms);
  }
