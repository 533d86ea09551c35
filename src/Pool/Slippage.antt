-- ===== src/Pool/Slippage.antt =====
-- The slippage check of a deposit: assert_slippage_tolerance of pool-manager/src/helpers.rs.
use stratosphere_contracts.Base.{
  ℕ, ◌-◌, Bool, not, Option, none, some, List, [], ◌∷◌, ltb, leb, length, Result, ok, err, ◌>>=◌,
  ◌>>◌, ensure, ok_or,
}
use stratosphere_contracts.Base.Coins.{Coin}
use stratosphere_contracts.Base.Decimals.{one}
use stratosphere_contracts.Pool.Data.{
  ContractError, PoolType, constant_product, stable_swap, External, std_error, panic,
  max_slippage_assertion, invalid_pool_assets_length,
}
use stratosphere_contracts.Pool.Deposits.{sum_amounts}

-- `pool_ratio * one_minus_slippage_tolerance > deposit_ratio`, each ratio and the product aborting
-- on an overflow or a zero denominator.
unfoldable pub drops_below : External → ℕ → ℕ × ℕ → ℕ × ℕ → Result ContractError Bool
drops_below x one_minus_slippage_tolerance (a, b) (c, d) = do
  left ← ok_or (x.decimal256.from_ratio a b) panic
  scaled ← ok_or (x.decimal256.checked_mul left one_minus_slippage_tolerance) panic
  right ← ok_or (x.decimal256.from_ratio c d) panic
  ok (ltb right scaled)

-- The check of each kind of pool, with the tolerance's complement.
unfoldable pub assert_ratios :
    External → PoolType → ℕ → List Coin → List Coin → ℕ → ℕ → Result ContractError (Unit {0})
unfolding drops_below
assert_ratios x (stable_swap amp) complement deposits pools amount pool_token_supply = do
  pools_total ← sum_amounts 256 pools 0
  deposits_total ← sum_amounts 256 deposits 0
  dropped ← drops_below x complement (pools_total, pool_token_supply) (deposits_total, amount)
  ensure (not dropped) max_slippage_assertion
assert_ratios x constant_product complement (d_0 ∷ d_1 ∷ []) (p_0 ∷ p_1 ∷ []) amount supply = do
  dropped ← drops_below x complement (d_0.amount, d_1.amount) (p_0.amount, p_1.amount)
  ensure (not dropped) max_slippage_assertion
  reversed ← drops_below x complement (d_1.amount, d_0.amount) (p_1.amount, p_0.amount)
  ensure (not reversed) max_slippage_assertion
assert_ratios x constant_product complement deposits pools amount supply =
    err (invalid_pool_assets_length 2 (length deposits))

unfoldable pub assert_slippage_tolerance :
    External → Option ℕ → List Coin → List Coin → PoolType → ℕ → ℕ → Result ContractError (Unit {0})
unfolding assert_ratios
assert_slippage_tolerance x none deposits pools pool_type amount pool_token_supply = ok tt
assert_slippage_tolerance x (some slippage_tolerance) deposits pools pool_type amount
      pool_token_supply =
    do
      ensure (leb slippage_tolerance one) std_error
      assert_ratios x pool_type (one - slippage_tolerance) deposits pools amount pool_token_supply
