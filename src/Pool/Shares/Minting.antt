-- ===== src/Pool/Shares/Minting.antt =====
-- The LP tokens of a deposit (compute_share of pool-manager/src/liquidity/commands.rs, and the
-- stableswap amounts of helpers.rs).
use native.Mathlib.Nat.{mul-le-mul_right, div-mul-le_self}
use stratosphere_contracts.Base.{
  ℕ, ◌+◌, ◌-◌, ◌*◌, ◌≤◌, ◌<◌, ◌≡◌, subst, Option, some, List, ◌∷◌, find, arith, ok, >>=-eq-ok,
  checked_multiply_ratio, min,
}
use stratosphere_contracts.Base.Text.{Text, text_eq}
use stratosphere_contracts.Base.Coins.{Coin}
use stratosphere_contracts.Pool.Data.{PoolInfo, constant_product, Message, External}
use stratosphere_contracts.Pool.Deposits.{compute_d, compute_lp_mint_amount_for_stableswap_deposit}
use stratosphere_contracts.Pool.Liquidity.{
  compute_share, compute_asset_shares, first_value, later_share,
}
use stratosphere_contracts.Pool.Books.{Lawful}

-- The asset of a denom, as the loop over the deposits finds it.
abbrev pub asset_of : Text → List Coin → Option Coin
asset_of d assets = find (λ c. text_eq c.denom d) assets

share_le :
    (amount total balance : ℕ) {share : ℕ}
    → checked_multiply_ratio 128 amount total balance ≡ some share
    → share * balance ≤ amount * total
share_le amount total balance e = grind (arith, div-mul-le_self (amount * total) balance)

min_left : (a b k n : ℕ) → a * k ≤ n → min a b * k ≤ n
min_left a b k n h = let le : min a b ≤ a = omega arith in omega (arith, mul-le-mul_right k le)

min_right : (a b k n : ℕ) → b * k ≤ n → min a b * k ≤ n
min_right a b k n h = let le : min a b ≤ b = omega arith in omega (arith, mul-le-mul_right k le)

first_value-le :
    (x : External) (law : Lawful x) (d_0 d_1 : Coin) (deposits : List Coin) (value : ℕ)
    → first_value x constant_product (d_0 ∷ d_1 ∷ deposits) ≡ ok value
    → value * value ≤ d_0.amount * d_1.amount
unfolding first_value
first_value-le x law d_0 d_1 deposits value h =
    grind (arith, law.integer_sqrt_law (d_0.amount * d_1.amount))

first_share_value :
    (x : External) (contract : Text) (pool : PoolInfo) (deposits : List Coin) (share value : ℕ)
    (ms : List Message)
    → compute_share x contract pool deposits 0 ≡ ok (share, ms)
    → first_value x pool.pool_type deposits ≡ ok value
    → (share + x.minimum_liquidity_amount ≡ value) × (0 < share)
unfolding compute_share
first_share_value x contract pool deposits share value ms h e = grind arith

-- With a lawful square root, the first deposit of a constant product pool gives a positive
-- share, and the square of the share with the minimum liquidity is at most the product of
-- the two deposits.
pub first_share-le :
    (x : External) (law : Lawful x) (contract : Text) (pool : PoolInfo) (d_0 d_1 : Coin)
    (deposits : List Coin) (share : ℕ) (ms : List Message)
    → pool.pool_type ≡ constant_product
    → compute_share x contract pool (d_0 ∷ d_1 ∷ deposits) 0 ≡ ok (share, ms)
    → ((share + x.minimum_liquidity_amount) * (share + x.minimum_liquidity_amount)
        ≤ d_0.amount * d_1.amount)
      × (0 < share)
unfolding compute_share
first_share-le x law contract pool d_0 d_1 deposits share ms kind h =
    let (value, e, _) = >>=-eq-ok (first_value x pool.pool_type (d_0 ∷ d_1 ∷ deposits)) _ h in
    let (total, positive) =
      first_share_value x contract pool (d_0 ∷ d_1 ∷ deposits) share value ms h e in
    let e' = subst (λ k. first_value x k (d_0 ∷ d_1 ∷ deposits) ≡ ok value) kind e in
    (rw total (first_value-le x law d_0 d_1 deposits value e'), positive)

-- A stableswap deposit that mints has raised the computed invariant, and what it mints times
-- the invariant before is at most the supply times the growth.
pub stable_share-le :
    (amp : ℕ) (old_assets new_assets : List Coin) (supply amount d_0 d_1 : ℕ)
    → compute_lp_mint_amount_for_stableswap_deposit amp old_assets new_assets supply
      ≡ ok (some amount)
    → compute_d amp old_assets ≡ ok d_0
    → compute_d amp new_assets ≡ ok d_1
    → (d_0 < d_1) × (amount * d_0 ≤ supply * (d_1 - d_0))
unfolding compute_lp_mint_amount_for_stableswap_deposit
stable_share-le amp old_assets new_assets supply amount d_0 d_1 h e f =
    grind (arith, div-mul-le_self (supply * (d_1 - d_0)) d_0)

-- In a constant product pool that has LP tokens, those minted for a deposit, times the
-- balance of each of the first two deposited assets, are at most the deposit of that asset
-- times the supply.
pub later_share-le :
    (x : External) (pool_assets : List Coin) (d_0 d_1 : Coin) (deposits : List Coin)
    (total_share share : ℕ) (a_0 a_1 : Coin)
    → later_share x constant_product pool_assets (d_0 ∷ d_1 ∷ deposits) total_share ≡ ok share
    → asset_of d_0.denom pool_assets ≡ some a_0
    → asset_of d_1.denom pool_assets ≡ some a_1
    → (share * a_0.amount ≤ d_0.amount * total_share)
      × (share * a_1.amount ≤ d_1.amount * total_share)
unfolding later_share compute_asset_shares
later_share-le x assets d_0 d_1 ds total share a_0 a_1 h e f = grind (
  arith,
  share_le d_0.amount total a_0.amount,
  share_le d_1.amount total a_1.amount,
  min_left,
  min_right,
)
