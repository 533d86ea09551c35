-- ===== src/Farm/Solvency/Run.antt =====
-- Every message of farm-manager/src/contract.rs, and sequences of them.
use stratosphere_contracts.Base.{◌≡◌, refl, List, arith, Option, some, none, ok, err, Result}
use stratosphere_contracts.Base.Text.{Text}
use stratosphere_contracts.Base.Coins.{MessageInfo}
use stratosphere_contracts.Base.Dict.{may_load}
use stratosphere_contracts.Farm.Data.{ContractError, Farm, FarmParams, Send, External, Env}
use stratosphere_contracts.Farm.Storage.{Storage, get_farm_by_identifier}
use stratosphere_contracts.Farm.Manager.{fill_farm, fill_found, named_farm}
use stratosphere_contracts.Farm.Contract.{
  ExecuteMsg, fill, close_farm_msg, update_ownership, claim_msg, create, expand, close, withdraw,
  update_config_msg, update_config, execute,
}
use stratosphere_contracts.Farm.Keys.{IsKept, farm-kept}
use stratosphere_contracts.Farm.Invariant.Positions.{
  create_position-PositionsKept, expand_position-PositionsKept, close_position-PositionsKept,
  withdraw_position-PositionsKept,
}
use stratosphere_contracts.Farm.Invariant.Farms.{
  close_farm-IsKept, expand_farm-IsKept, create_farm-IsKept,
}
use stratosphere_contracts.Farm.Solvency.Books.{locked, owed, paid, Covered, Lawful}
use stratosphere_contracts.Farm.Solvency.Positions.{
  create_position-Covered, expand_position-Covered, close_position-Covered,
}
use stratosphere_contracts.Farm.Solvency.Withdrawals.{withdraw_position-Covered}
use stratosphere_contracts.Farm.Solvency.Claims.{claim-Covered, claim-IsKept}
use stratosphere_contracts.Farm.Solvency.Closing.{close_farm-Covered}
use stratosphere_contracts.Farm.Solvency.Filling.{create_farm-Covered, expand_farm-Covered}

module _ (x : External) (law : Lawful x) (env : Env) (info : MessageInfo) (s : Storage)
    (kept : IsKept s) where
  named_at_identifier :
      (o : Option Text) (f : Farm) → named_farm o s ≡ ok f → may_load f.identifier s.farms ≡ some f
  unfolding get_farm_by_identifier named_farm
  named_at_identifier none f e = cc
  named_at_identifier (some k) f e = grind (arith, farm-kept k f s.farms kept.farms)

  fill_found-Covered :
      (params : FarmParams) (d : Text) (found : Result ContractError Farm)
      (out : Storage × List Send)
      → named_farm params.farm_identifier s ≡ found
      → fill_found x env info params s found ≡ ok out
      → Covered d s info.funds out
  unfolding fill_found
  fill_found-Covered params d (ok f) out e h =
      expand_farm-Covered x law env info f params s d kept.farms
        (named_at_identifier params.farm_identifier f e) h
  fill_found-Covered params d (err e) out f h =
      create_farm-Covered x env info params s d kept.farms h

  fill_found-IsKept :
      (params : FarmParams) (found : Result ContractError Farm) (out : Storage × List Send)
      → named_farm params.farm_identifier s ≡ found
      → fill_found x env info params s found ≡ ok out
      → IsKept out.0
  unfolding fill_found
  fill_found-IsKept params (ok f) out e h =
      expand_farm-IsKept x env info f params s out kept
        (named_at_identifier params.farm_identifier f e) h
  fill_found-IsKept params (err e) out f h = create_farm-IsKept x env info params s out kept h

  -- A successful message of any kind, on maps that keep their keys, leaves locked LP tokens,
  -- unclaimed farm assets and sent coins of a denom that together are at most the locked and
  -- unclaimed before it with the funds.
  pub execute-Covered :
      (msg : ExecuteMsg) (d : Text) (out : Storage × List Send)
      → execute x env info msg s ≡ ok out
      → Covered d s info.funds out
  unfolding execute update_config fill_farm Covered locked owed paid
  execute-Covered (fill params) d out h =
      fill_found-Covered params d (named_farm params.farm_identifier s) out refl h
  execute-Covered (close_farm_msg k) d out h = close_farm-Covered x info k s d kept.farms h
  execute-Covered (update_ownership accepted) d out h = ground arith
  execute-Covered claim_msg d out h = claim-Covered x law env info s d kept.farms h
  execute-Covered (create i u r) d out h = create_position-Covered x law env info i u r s d h
  execute-Covered (expand i) d out h = expand_position-Covered x law env info i s d kept h
  execute-Covered (close i asset) d out h = close_position-Covered x env info i asset s d kept h
  execute-Covered (withdraw i e) d out h = withdraw_position-Covered x law env info i e s d h
  execute-Covered (update_config_msg u) d out h = ground arith

  -- A state with the same positions, counter and farms.
  unchanged :
      (s' : Storage)
      → s'.positions ≡ s.positions
      → s'.position_id_counter ≡ s.position_id_counter
      → s'.farms ≡ s.farms
      → IsKept s'
  unchanged s' p c f = record { positions = rw (c, p) kept.positions; farms = rw f kept.farms }

  -- A successful message of any kind keeps every position and farm at its identifier under
  -- distinct keys, automatic position identifiers within the counter, and no farm with more
  -- claimed than its asset.
  pub execute-IsKept :
      (msg : ExecuteMsg) (out : Storage × List Send)
      → execute x env info msg s ≡ ok out
      → IsKept out.0
  unfolding execute update_config fill_farm
  execute-IsKept (fill params) out h =
      fill_found-IsKept params (named_farm params.farm_identifier s) out refl h
  execute-IsKept (close_farm_msg k) out h = close_farm-IsKept x env info k s out kept h
  execute-IsKept (update_ownership accepted) out h =
      unchanged out.0 (ground arith) (ground arith) (ground arith)
  execute-IsKept claim_msg out h = claim-IsKept x law env info s kept h
  execute-IsKept (create i u r) out h =
      let (p, f) = create_position-PositionsKept x env info i u r s out kept.positions h in
      record { positions = p; farms = rw f kept.farms }
  execute-IsKept (expand i) out h =
      let (p, f) = expand_position-PositionsKept x env info i s out kept.positions h in
      record { positions = p; farms = rw f kept.farms }
  execute-IsKept (close i asset) out h =
      let (p, f) =
        close_position-PositionsKept x env info i asset s out kept.positions kept.farms h in
      record { positions = p; farms = f }
  execute-IsKept (withdraw i e) out h =
      let (p, f) = withdraw_position-PositionsKept x env info i e s out kept.positions h in
      record { positions = p; farms = rw f kept.farms }
  execute-IsKept (update_config_msg u) out h =
      unchanged out.0 (ground arith) (ground arith) (ground arith)
