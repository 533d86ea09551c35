-- ===== src/Pool/Kept/Pools.antt =====
-- A well-formed pool, and what saving its balances keeps (pool-manager/src).
use stratosphere_contracts.Base.{
  ℕ, zero, suc, ◌≤◌, ◌≡◌, refl, ap, ◌∙◌, false, Option, some, List, [], ◌∷◌, set, get_elem?, length,
  arith, ok, >>=-eq-ok, checked_add, checked_sub,
}
use stratosphere_contracts.Base.Text.{Text}
use stratosphere_contracts.Base.Coins.{Coin}
use stratosphere_contracts.Base.Dict.{may_load}
use stratosphere_contracts.Base.Keys.{Entries, Entries-may_load, Entries-save}
use stratosphere_contracts.Pool.Data.{PoolInfo}
use stratosphere_contracts.Pool.Storage.{Storage, save_pool}
use stratosphere_contracts.Pool.Creation.{any_repeated}
use stratosphere_contracts.Pool.Swaps.{move_balances}
use stratosphere_contracts.Pool.Liquidity.{change_asset, add_deposits, deduct_refunds}
use stratosphere_contracts.Pool.Books.{save_pool-pools}
use stratosphere_contracts.Pool.Shares.Roundtrip.{denoms_of}

-- A pool under its identifier: two to four different denoms, an asset and a number of decimals for
-- each, in one order.
pub record IsKept (pool_identifier : Text) (pool : PoolInfo) : Type 0 where
  pub identified : pool.pool_identifier ≡ pool_identifier
  pub in_order : denoms_of pool.assets ≡ pool.asset_denoms
  pub decimals : length pool.asset_denoms ≡ length pool.asset_decimals
  pub distinct : any_repeated pool.asset_denoms ≡ false
  pub several : 2 ≤ length pool.asset_denoms
  pub at_most_four : length pool.asset_denoms ≤ 4

unfoldable pub PoolsKept : Storage → Type 0
PoolsKept s = Entries IsKept s.pools

-- Changing balances keeps the denoms.
denoms_of-set :
    (cs : List Coin) (i amount : ℕ) {c : Coin}
    → get_elem? cs i ≡ some c
    → denoms_of (set cs i (record c { amount = amount })) ≡ denoms_of cs
denoms_of-set [] i amount h = refl
denoms_of-set (c ∷ cs) zero amount h = ground arith
denoms_of-set (c ∷ cs) (suc i) amount h = ap (λ ds. c.denom ∷ ds) (denoms_of-set cs i amount h)

pub move_balances-denoms :
    (assets assets' : List Coin) (i j o r f : ℕ)
    → move_balances assets i j o r f ≡ ok assets'
    → denoms_of assets' ≡ denoms_of assets
unfolding move_balances
move_balances-denoms assets assets' i j o r f h = grind (arith, denoms_of-set)

change_asset-denoms :
    (change : ℕ → Option ℕ) (d : Text) (assets assets' : List Coin)
    → change_asset change d assets ≡ ok assets'
    → denoms_of assets' ≡ denoms_of assets
unfolding change_asset
change_asset-denoms change d [] assets' h = cc
change_asset-denoms change d (c ∷ cs) assets' h = grind (arith, change_asset-denoms change d cs)

pub add_deposits-denoms :
    (ds assets assets' : List Coin)
    → add_deposits ds assets ≡ ok assets'
    → denoms_of assets' ≡ denoms_of assets
unfolding add_deposits
add_deposits-denoms [] assets assets' h = ground arith
add_deposits-denoms (c ∷ cs) assets assets' h =
    let (changed, e, rest) =
      >>=-eq-ok (change_asset (λ amount. checked_add 128 amount c.amount) c.denom assets) _ h in
    add_deposits-denoms cs changed assets' rest
    ∙ change_asset-denoms (λ amount. checked_add 128 amount c.amount) c.denom assets changed e

pub deduct_refunds-denoms :
    (ds assets assets' : List Coin)
    → deduct_refunds ds assets ≡ ok assets'
    → denoms_of assets' ≡ denoms_of assets
unfolding deduct_refunds
deduct_refunds-denoms [] assets assets' h = ground arith
deduct_refunds-denoms (c ∷ cs) assets assets' h =
    let (changed, e, rest) =
      >>=-eq-ok (change_asset (λ amount. checked_sub amount c.amount) c.denom assets) _ h in
    deduct_refunds-denoms cs changed assets' rest
    ∙ change_asset-denoms (λ amount. checked_sub amount c.amount) c.denom assets changed e

-- A pool that is saved again with new balances.
pub resaved :
    (k : Text) (pool : PoolInfo) (assets : List Coin) (s s' : Storage)
    → PoolsKept s
    → may_load k s.pools ≡ some pool
    → denoms_of assets ≡ denoms_of pool.assets
    → save_pool k (record pool { assets = assets }) s ≡ ok s'
    → PoolsKept s'
unfolding PoolsKept
resaved k pool assets s s' kept at same saved =
    let old = Entries-may_load IsKept k pool s.pools kept at in
    rw (save_pool-pools k (record pool { assets = assets }) s s' saved) (
      Entries-save IsKept k (record pool { assets = assets }) s.pools
        record {
          identified = old.identified;
          in_order = same ∙ old.in_order;
          decimals = old.decimals;
          distinct = old.distinct;
          several = old.several;
          at_most_four = old.at_most_four;
        }
        kept)
