-- ===== src/Farm/Solvency/Ledger.antt =====
-- The farm manager's bank balance over sequences of messages (farm-manager/src/contract.rs).
use stratosphere_contracts.Base.{ℕ, ◌+◌, ◌-◌, ◌≤◌, ◌≡◌, refl, List, [], ◌∷◌, arith, ok, err, Result}
use stratosphere_contracts.Base.Text.{Text}
use stratosphere_contracts.Base.Coins.{MessageInfo, amount_of}
use stratosphere_contracts.Base.Keys.{Entries}
use stratosphere_contracts.Farm.Data.{ContractError, Send, External, Env}
use stratosphere_contracts.Farm.Storage.{Storage}
use stratosphere_contracts.Farm.Contract.{ExecuteMsg, execute, InstantiateMsg, instantiate}
use stratosphere_contracts.Farm.Keys.{IsKept, PositionsKept, FarmsKept}
use stratosphere_contracts.Farm.Solvency.Books.{locked, owed, paid, Covered, Lawful}
use stratosphere_contracts.Farm.Solvency.Run.{execute-Covered, execute-IsKept}

pub record Call : Type 0 where
  pub env : Env
  pub info : MessageInfo
  pub msg : ExecuteMsg

-- The state and the balance in a denom after a call: the funds come in and the messages pay out.
-- A failed call is rolled back.
unfoldable pub settled :
    Text → MessageInfo → Result ContractError (Storage × List Send) → Storage × ℕ → Storage × ℕ
settled d info (ok (s', messages)) (s, balance) =
    (s', balance + amount_of d info.funds - paid d messages)
settled d info (err e) (s, balance) = (s, balance)

unfoldable pub run : External → Text → List Call → Storage × ℕ → Storage × ℕ
run x d [] at = at
run x d (c ∷ calls) at = run x d calls (settled d c.info (execute x c.env c.info c.msg at.0) at)

-- The balance holds all LP tokens of positions and all that farms still owe.
pub record IsSolvent (d : Text) (at : Storage × ℕ) : Type 0 where
  pub kept : IsKept at.0
  pub backed : locked d at.0 + owed d at.0 ≤ at.1

instantiate-IsSolvent :
    (x : External) (msg : InstantiateMsg) (s : Storage) (d : Text)
    → instantiate x msg ≡ ok s
    → IsSolvent d (s, 0)
unfolding instantiate PositionsKept FarmsKept Entries locked owed
instantiate-IsSolvent x msg s d h =
    let no_positions : s.positions ≡ [] = ground arith in
    let no_farms : s.farms ≡ [] = ground arith in
    record {
      kept = record { positions = rw no_positions tt; farms = rw no_farms tt };
      backed = rw (no_positions, no_farms) (omega arith);
    }

module _ (x : External) (law : Lawful x) (d : Text) where
  settled-IsSolvent :
      (c : Call) (s : Storage) (b : ℕ) (r : Result ContractError (Storage × List Send))
      → execute x c.env c.info c.msg s ≡ r
      → IsSolvent d (s, b)
      → IsSolvent d (settled d c.info r (s, b))
  unfolding settled Covered
  settled-IsSolvent c s b (ok (s', ms)) h at = record {
    kept = execute-IsKept x law c.env c.info s at.kept c.msg (s', ms) h;
    backed =
        omega (arith, at.backed, execute-Covered x law c.env c.info s at.kept c.msg d (s', ms) h);
  }
  settled-IsSolvent c s b (err e) h at = at

  run-IsSolvent :
      (calls : List Call) (at : Storage × ℕ) → IsSolvent d at → IsSolvent d (run x d calls at)
  unfolding run
  run-IsSolvent [] at solvent = solvent
  run-IsSolvent (c ∷ calls) (s, b) solvent =
      run-IsSolvent calls (settled d c.info (execute x c.env c.info c.msg s) (s, b))
        (settled-IsSolvent c s b (execute x c.env c.info c.msg s) refl solvent)

  -- From the instantiation on, after any sequence of messages to the farm manager, its
  -- balance in any denom is at least the LP tokens of all stored positions with all that the
  -- stored farms have not yet given, and the maps keep their keys.
  pub run-instantiate-IsSolvent :
      (msg : InstantiateMsg) (s : Storage) (calls : List Call)
      → instantiate x msg ≡ ok s
      → IsSolvent d (run x d calls (s, 0))
  run-instantiate-IsSolvent msg s calls h =
      run-IsSolvent calls (s, 0) (instantiate-IsSolvent x msg s d h)

  -- After any sequence of messages from the instantiation on, what the messages of a further
  -- successful call send of a denom is at most the balance with the funds of that call.
  pub execute-run-payable :
      (msg : InstantiateMsg) (s : Storage) (calls : List Call) (c : Call)
      (out : Storage × List Send)
      → instantiate x msg ≡ ok s
      → execute x c.env c.info c.msg (run x d calls (s, 0)).0 ≡ ok out
      → paid d out.1 ≤ (run x d calls (s, 0)).1 + amount_of d c.info.funds
  unfolding Covered
  execute-run-payable msg s calls c out started h =
      let solvent = run-instantiate-IsSolvent msg s calls started in
      omega (
        arith,
        solvent.backed,
        execute-Covered x law c.env c.info (run x d calls (s, 0)).0 solvent.kept c.msg d out h,
      )
