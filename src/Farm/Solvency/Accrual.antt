-- ===== src/Farm/Solvency/Accrual.antt =====
-- The rewards that calculate_rewards of farm-manager/src/farm/commands.rs lists are those that it
-- charges to farms.
use stratosphere_contracts.Base.{
  ℕ, ◌+◌, ◌≡◌, refl, List, [], ◌∷◌, arith, Option, some, none, ok, true, false, is_some, unwrap_or,
  if◌then◌else◌, Bool-cases, inl, inr, >>=-eq-ok,
}
use stratosphere_contracts.Base.Text.{Text, text_eq, text_eq_iff}
use stratosphere_contracts.Base.Coins.{Coin, amount_of, amount_of-append, coin_amount}
use stratosphere_contracts.Base.Dict.{Dict, may_load, save, replace, insert_in_order}
use stratosphere_contracts.Farm.Data.{Farm, External, Env}
use stratosphere_contracts.Farm.Storage.{Storage, Entries, get_farms_by_lp_denom}
use stratosphere_contracts.Farm.Rewards.{
  claim_rewards, Accrued, accrue_epoch, accrue_epochs, accrue_farm, accrue_farms, calculate_rewards,
}
use stratosphere_contracts.Farm.Keys.{FarmsKept}
use stratosphere_contracts.Farm.Listing.{Among, Among-remove, Among-tail, listed-Among}
use stratosphere_contracts.Farm.Solvency.Books.{Lawful}

-- An amount, if it is charged to a farm that pays in the denom.
unfoldable pub charged : Text → Option Farm → ℕ → ℕ
charged d none n = 0
charged d (some f) n = if text_eq f.farm_asset.denom d then n else 0

-- What a list of charges takes, in a denom.
unfoldable pub due : Text → Dict Farm → Dict ℕ → ℕ
due d farms [] = 0
due d farms ((k, n) ∷ m) = charged d (may_load k farms) n + due d farms m

module _ (d : Text) (farms : Dict Farm) (k : Text) (n : ℕ) where
  due-replace :
      (m : Dict ℕ)
      → is_some (may_load k m) ≡ true
      → due d farms (replace k n m) + charged d (may_load k farms) (unwrap_or (may_load k m) 0)
        ≡ due d farms m + charged d (may_load k farms) n
  unfolding due replace may_load
  due-replace [] h = cc
  due-replace ((j, v) ∷ m) h = grind (arith, due-replace m, text_eq_iff j k)

  due-insert :
      (m : Dict ℕ)
      → due d farms (insert_in_order k n m) ≡ due d farms m + charged d (may_load k farms) n
  unfolding due insert_in_order
  due-insert [] = omega arith
  due-insert ((j, v) ∷ m) = ground (arith, due-insert m)

  charged_nothing : (o : Option Farm) → charged d o 0 ≡ 0
  unfolding charged
  charged_nothing none = refl
  charged_nothing (some f) = ground arith

  absent_charge :
      (m : Dict ℕ)
      → is_some (may_load k m) ≡ false
      → charged d (may_load k farms) (unwrap_or (may_load k m) 0) ≡ 0
  absent_charge m h = grind (arith, charged_nothing (may_load k farms))

  due-save :
      (m : Dict ℕ)
      → due d farms (save k n m) + charged d (may_load k farms) (unwrap_or (may_load k m) 0)
        ≡ due d farms m + charged d (may_load k farms) n
  unfolding save
  due-save m = elim (Bool-cases (is_some (may_load k m))) [
    | inl old ↦ rw old (due-replace m old)
    | inr new ↦ rw new (omega (arith, due-insert m, absent_charge m new))
  ]

module _ (s : Storage) (d : Text) where
  -- The rewards so far are what is charged so far.
  abbrev Balanced : Accrued → Type 0
  Balanced acc = amount_of d acc.rewards ≡ due d s.farms acc.modified_farms

  accrue_epoch-Balanced :
      (f : Farm) (us cs es : Entries) (e : ℕ) (acc acc' : Accrued)
      → may_load f.identifier s.farms ≡ some f
      → Balanced acc
      → accrue_epoch f us cs es true e acc ≡ ok acc'
      → Balanced acc'
  unfolding accrue_epoch charged amount_of coin_amount
  accrue_epoch-Balanced f us cs es e acc acc' found b h =
      grind (arith, due-save d s.farms f.identifier, amount_of-append d acc.rewards)

  accrue_epochs-Balanced :
      (f : Farm) (us cs es : Entries) (epochs : List ℕ) (acc acc' : Accrued)
      → may_load f.identifier s.farms ≡ some f
      → Balanced acc
      → accrue_epochs f us cs es true epochs acc ≡ ok acc'
      → Balanced acc'
  unfolding accrue_epochs
  accrue_epochs-Balanced f us cs es [] acc acc' found b h = ground arith
  accrue_epochs-Balanced f us cs es (e ∷ epochs) acc acc' found b h =
      let (next, k, h') =
        >>=-eq-ok (accrue_epoch f us cs es true e acc) (accrue_epochs f us cs es true epochs) h in
      accrue_epochs-Balanced f us cs es epochs next acc' found
        (accrue_epoch-Balanced f us cs es e acc next found b k) h'

  accrue_farm-Balanced :
      (env : Env) (lp_denom receiver : Text) (now : ℕ) (last : Option ℕ) (f : Farm)
      (acc acc' : Accrued)
      → may_load f.identifier s.farms ≡ some f
      → Balanced acc
      → accrue_farm env s lp_denom receiver now true last f acc ≡ ok acc'
      → Balanced acc'
  unfolding accrue_farm
  accrue_farm-Balanced env lp_denom receiver now last f acc acc' found b h =
      grind (arith, accrue_epochs-Balanced f)

  accrue_farms-Balanced :
      (env : Env) (lp_denom receiver : Text) (now : ℕ) (last : Option ℕ) (fs : List Farm)
      (acc acc' : Accrued)
      → FarmsKept s.farms
      → Among fs s.farms
      → Balanced acc
      → accrue_farms env s lp_denom receiver now true last fs acc ≡ ok acc'
      → Balanced acc'
  unfolding accrue_farms FarmsKept
  accrue_farms-Balanced env lp_denom receiver now last [] acc acc' kept among b h = ground arith
  accrue_farms-Balanced env lp_denom receiver now last (f ∷ fs) acc acc' kept among b h =
      let (next, k, h') =
        >>=-eq-ok (accrue_farm env s lp_denom receiver now true last f acc)
          (accrue_farms env s lp_denom receiver now true last fs) h in
      accrue_farms-Balanced env lp_denom receiver now last fs next acc' kept
        (Among-tail f fs s.farms among)
        (accrue_farm-Balanced env lp_denom receiver now last f acc next
          (Among-remove f fs s.farms kept among).0 b k)
        h'

  -- Where the farms keep their keys, the rewards that calculate_rewards answers for a claim
  -- are, in each denom, exactly the sum that it charges to farms paying in that denom.
  pub calculate_rewards-charged :
      (x : External) (env : Env) (lp_denom receiver : Text) (now : ℕ) (rewards : List Coin)
      (modified : Dict ℕ)
      → Lawful x
      → FarmsKept s.farms
      → calculate_rewards x env s lp_denom receiver now true ≡ ok (claim_rewards rewards modified)
      → amount_of d rewards ≡ due d s.farms modified
  unfolding calculate_rewards due amount_of
  calculate_rewards-charged x env lp_denom receiver now rewards modified law kept h = grind (
    arith,
    law.aggregate_law,
    accrue_farms-Balanced env lp_denom receiver now (may_load receiver s.last_claimed_epoch)
        (get_farms_by_lp_denom s lp_denom (some s.config.max_concurrent_farms))
        (record { rewards = []; modified_farms = [] }),
    listed-Among s lp_denom (some s.config.max_concurrent_farms),
  )
