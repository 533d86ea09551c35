-- ===== src/Farm/Solvency/Claims.antt =====
-- What `claim` of farm-manager/src/farm/commands.rs pays is taken off the farms.
use stratosphere_contracts.Base.{
  ℕ, ◌+◌, ◌≤◌, ◌≡◌, refl, ap, List, [], ◌∷◌, ◌++◌, arith, some, ok, true, ◌>>=◌, >>=-eq-ok, subst,
  ok-injective, ◌∙◌,
}
use stratosphere_contracts.Base.Text.{Text, text_eq_iff}
use stratosphere_contracts.Base.Coins.{Coin, MessageInfo, amount_of, amount_of-append}
use stratosphere_contracts.Base.Dict.{Dict, may_load, total, total-save, may_load-save}
use stratosphere_contracts.Farm.Data.{Farm, External, Env, Send}
use stratosphere_contracts.Farm.Storage.{Storage}
use stratosphere_contracts.Farm.Rewards.{
  RewardsResponse, claim_rewards, calculate_rewards, claim_from_farm, claim_from_farms,
  claim_response, claim_denom, rewards_response, query_rewards_response, claim_denoms, claim,
}
use stratosphere_contracts.Farm.Weights.{sync_address_lp_weight_history}
use stratosphere_contracts.Farm.Frame.{books, sync-SameBooks}
use stratosphere_contracts.Farm.Keys.{IsKept, FarmsKept, PositionsKept, farm-kept, save-FarmsKept}
use stratosphere_contracts.Farm.Solvency.Books.{
  lp_held, unclaimed, locked, owed, paid, Covered, Lawful,
}
use stratosphere_contracts.Farm.Solvency.Accrual.{charged, due, calculate_rewards-charged}

-- A step that changes farms only, and these only in what was claimed.
record Charges (d : Text) (n : ℕ) (s s' : Storage) : Type 0 where
  covers : owed d s' + n ≤ owed d s
  same_positions : s'.positions ≡ s.positions
  same_counter : s'.position_id_counter ≡ s.position_id_counter
  farms : FarmsKept s'.farms
  same_denoms :
      (k : Text) (m : ℕ) → charged d (may_load k s'.farms) m ≡ charged d (may_load k s.farms) m

claim_from_farm-Charges :
    (d : Text) (now : ℕ) (k : Text) (n : ℕ) (s s' : Storage)
    → FarmsKept s.farms
    → claim_from_farm now k n s ≡ ok s'
    → Charges d (charged d (may_load k s.farms) n) s s'
unfolding claim_from_farm owed charged unclaimed
claim_from_farm-Charges d now k n s s' kept h = record {
  covers = grind (arith, total-save (unclaimed d) k, farm-kept k);
  same_positions = ground arith;
  same_counter = ground arith;
  farms = grind (arith, save-FarmsKept k, farm-kept k);
  same_denoms = λ j m. grind (arith, may_load-save {V = Farm} k j, text_eq_iff k j);
}

due-same :
    (d : Text) (s s' : Storage) (m : Dict ℕ)
    → ((k : Text) (n : ℕ) → charged d (may_load k s'.farms) n ≡ charged d (may_load k s.farms) n)
    → due d s'.farms m ≡ due d s.farms m
unfolding due
due-same d s s' [] same = refl
due-same d s s' ((k, n) ∷ m) same = omega (arith, same k n, due-same d s s' m same)

claim_from_farms-Charges :
    (d : Text) (now : ℕ) (m : Dict ℕ) (s s' : Storage)
    → FarmsKept s.farms
    → claim_from_farms now m s ≡ ok s'
    → Charges d (due d s.farms m) s s'
unfolding claim_from_farms due owed
claim_from_farms-Charges d now [] s s' kept h = record {
  covers = ground arith;
  same_positions = ground arith;
  same_counter = ground arith;
  farms = grind arith;
  same_denoms = λ k n. ground arith;
}
claim_from_farms-Charges d now ((k, n) ∷ m) s s' kept h =
    let (next, e, h') = >>=-eq-ok (claim_from_farm now k n s) (claim_from_farms now m) h in
    let first = claim_from_farm-Charges d now k n s next kept e in
    let others = claim_from_farms-Charges d now m next s' first.farms h' in
    record {
      covers = omega (arith, first.covers, others.covers, due-same d s next m first.same_denoms);
      same_positions = others.same_positions ∙ first.same_positions;
      same_counter = others.same_counter ∙ first.same_counter;
      farms = others.farms;
      same_denoms = λ j i. others.same_denoms j i ∙ first.same_denoms j i;
    }

-- What a claim has gathered, and what it left of the farms, against what there was.
record Gathered (d : Text) (before after : List Coin × Storage) : Type 0 where
  pub covers : amount_of d after.0 + owed d after.1 ≤ amount_of d before.0 + owed d before.1
  pub same_positions : after.1.positions ≡ before.1.positions
  pub same_counter : after.1.position_id_counter ≡ before.1.position_id_counter
  pub farms : FarmsKept after.1.farms

module _ (x : External) (law : Lawful x) (env : Env) (d sender : Text) (now : ℕ) where
  -- The rewards of one denom, once they are taken off the farms and the weights are settled.
  gather :
      (lp_denom : Text) (total_rewards rewards : List Coin) (m : Dict ℕ) (s s' s'' : Storage)
      → FarmsKept s.farms
      → calculate_rewards x env s lp_denom sender now true ≡ ok (claim_rewards rewards m)
      → claim_from_farms now m s ≡ ok s'
      → sync_address_lp_weight_history sender lp_denom now true s' ≡ ok s''
      → Gathered d (total_rewards, s) (total_rewards ++ rewards, s'')
  unfolding owed
  gather lp_denom total_rewards rewards m s s' s'' kept rewarded claimed synced =
      let taken = claim_from_farms-Charges d now m s s' kept claimed in
      let (p, f, _, c, _) = books (sync-SameBooks sender lp_denom now true s' synced) in
      record {
        covers = rw f (
            omega (
              arith,
              taken.covers,
              amount_of-append d total_rewards rewards,
              calculate_rewards-charged s d x env lp_denom sender now rewards m law kept rewarded,
            ));
        same_positions = p ∙ taken.same_positions;
        same_counter = c ∙ taken.same_counter;
        farms = rw f taken.farms;
      }

  response-Gathered :
      (lp_denom : Text) (rs : List Coin) (s : Storage) (acc' : List Coin × Storage)
      (response : RewardsResponse)
      → FarmsKept s.farms
      → calculate_rewards x env s lp_denom sender now true ≡ ok response
      → claim_response sender now lp_denom rs s response ≡ ok acc'
      → Gathered d (rs, s) acc'
  unfolding claim_response
  response-Gathered lp_denom rs s acc' (claim_rewards rewards m) kept e h =
      let (s', taken, h₁) =
        >>=-eq-ok (claim_from_farms now m s)
          (λ s'. sync_address_lp_weight_history sender lp_denom now true s' >>= λ s''.
            ok (rs ++ rewards, s''))
          h in
      let (s'', synced, h₂) =
        >>=-eq-ok (sync_address_lp_weight_history sender lp_denom now true s')
          (λ s''. ok (rs ++ rewards, s'')) h₁ in
      subst (Gathered d (rs, s)) (ok-injective h₂)
        (gather lp_denom rs rewards m s s' s'' kept e taken synced)
  response-Gathered lp_denom rs s acc' (rewards_response rewards per_lp) kept e h = cc
  response-Gathered lp_denom rs s acc' (query_rewards_response rewards) kept e h = cc

  claim_denom-Gathered :
      (lp_denom : Text) (acc acc' : List Coin × Storage)
      → FarmsKept acc.1.farms
      → claim_denom x env sender now lp_denom acc ≡ ok acc'
      → Gathered d acc acc'
  unfolding claim_denom
  claim_denom-Gathered lp_denom (rs, s) acc' kept h =
      let (response, e, h') =
        >>=-eq-ok (calculate_rewards x env s lp_denom sender now true)
          (claim_response sender now lp_denom rs s) h in
      response-Gathered lp_denom rs s acc' response kept e h'

  claim_denoms-Gathered :
      (lp_denoms : List Text) (acc acc' : List Coin × Storage)
      → FarmsKept acc.1.farms
      → claim_denoms x env sender now lp_denoms acc ≡ ok acc'
      → Gathered d acc acc'
  unfolding claim_denoms
  claim_denoms-Gathered [] acc acc' kept h = record {
    covers = ground arith;
    same_positions = ground arith;
    same_counter = ground arith;
    farms = grind arith;
  }
  claim_denoms-Gathered (l ∷ ls) acc acc' kept h =
      let (next, e, h') =
        >>=-eq-ok (claim_denom x env sender now l acc) (claim_denoms x env sender now ls) h in
      let first = claim_denom-Gathered l acc next kept e in
      let others = claim_denoms-Gathered ls next acc' first.farms h' in
      record {
        covers = omega (arith, first.covers, others.covers);
        same_positions = others.same_positions ∙ first.same_positions;
        same_counter = others.same_counter ∙ first.same_counter;
        farms = others.farms;
      }

module _ (x : External) (law : Lawful x) (env : Env) (info : MessageInfo) where
  claims-cover :
      (d : Text) (now : ℕ) (lp_denoms : List Text) (s : Storage) (acc : List Coin × Storage)
      → FarmsKept s.farms
      → claim_denoms x env info.sender now lp_denoms ([], s) ≡ ok acc
      → amount_of d acc.0 + owed d acc.1 ≤ owed d s
  unfolding amount_of
  claims-cover d now lp_denoms s acc kept h =
      let g = claim_denoms-Gathered x law env d info.sender now lp_denoms ([], s) acc kept h in
      omega (arith, g.covers)

  claims-owed :
      (d : Text) (now : ℕ) (lp_denoms : List Text) (s : Storage) (acc : List Coin × Storage)
      → FarmsKept s.farms
      → claim_denoms x env info.sender now lp_denoms ([], s) ≡ ok acc
      → owed d acc.1 ≤ owed d s
  claims-owed d now lp_denoms s acc kept h =
      omega (arith, claims-cover d now lp_denoms s acc kept h)

  claims-pay :
      (d : Text) (now : ℕ) (lp_denoms : List Text) (s : Storage) (acc : List Coin × Storage)
      (amount : List Coin)
      → x.aggregate_coins acc.0 ≡ some amount
      → FarmsKept s.farms
      → claim_denoms x env info.sender now lp_denoms ([], s) ≡ ok acc
      → amount_of d amount + owed d acc.1 ≤ owed d s
  claims-pay d now lp_denoms s acc amount gathered kept h =
      omega (
        arith,
        claims-cover d now lp_denoms s acc kept h,
        law.aggregate_law acc.0 amount d gathered,
      )

  claims-locked :
      (d : Text) (now : ℕ) (lp_denoms : List Text) (s : Storage) (acc : List Coin × Storage)
      → FarmsKept s.farms
      → claim_denoms x env info.sender now lp_denoms ([], s) ≡ ok acc
      → locked d acc.1 ≡ locked d s
  unfolding locked
  claims-locked d now lp_denoms s acc kept h =
      ap (total (lp_held d))
        (claim_denoms-Gathered x law env d info.sender now lp_denoms ([], s) acc kept
          h).same_positions

  pub claim-Covered :
      (s : Storage) (denom : Text) {out : Storage × List Send}
      → FarmsKept s.farms
      → claim x env info s ≡ ok out
      → Covered denom s info.funds out
  unfolding claim Covered locked owed paid amount_of
  claim-Covered s denom kept h =
      grind (arith, claims-owed denom, claims-locked denom, claims-pay denom)

  claims-PositionsKept :
      (now : ℕ) (lp_denoms : List Text) (s : Storage) (acc : List Coin × Storage)
      → IsKept s
      → claim_denoms x env info.sender now lp_denoms ([], s) ≡ ok acc
      → PositionsKept acc.1.position_id_counter acc.1.positions
  claims-PositionsKept now lp_denoms s acc kept h =
      let g =
        claim_denoms-Gathered x law env [] info.sender now lp_denoms ([], s) acc kept.farms h in
      rw (g.same_counter, g.same_positions) kept.positions

  claims-FarmsKept :
      (now : ℕ) (lp_denoms : List Text) (s : Storage) (acc : List Coin × Storage)
      → FarmsKept s.farms
      → claim_denoms x env info.sender now lp_denoms ([], s) ≡ ok acc
      → FarmsKept acc.1.farms
  claims-FarmsKept now lp_denoms s acc kept h =
      (claim_denoms-Gathered x law env [] info.sender now lp_denoms ([], s) acc kept h).farms

  pub claim-IsKept :
      (s : Storage) {out : Storage × List Send}
      → IsKept s
      → claim x env info s ≡ ok out
      → IsKept out.0
  unfolding claim
  claim-IsKept s kept h = record {
    positions = grind (arith, claims-PositionsKept);
    farms = grind (arith, claims-FarmsKept, kept.farms);
  }
