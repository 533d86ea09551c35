-- ===== src/Pool/Performed.antt =====
-- What a performed swap has done (perform_swap of pool-manager/src/swap/perform_swap.rs).
use stratosphere_contracts.Base.{
  ℕ, ◌+◌, ◌≡◌, refl, subst, Option, some, List, arith, ok, >>=-eq-ok, ok_or-eq-ok, ok-injective,
  length,
}
use stratosphere_contracts.Base.Text.{Text}
use stratosphere_contracts.Base.Coins.{Coin}
use stratosphere_contracts.Base.Dict.{may_load}
use stratosphere_contracts.Pool.Data.{PoolInfo, External, un_existing_pool}
use stratosphere_contracts.Pool.Storage.{Storage, get_pool_by_identifier, save_pool}
use stratosphere_contracts.Pool.Compute.{SwapComputation, compute_swap}
use stratosphere_contracts.Pool.Swaps.{
  Indexes, SwapResult, get_asset_indexes_in_pool, move_balances, perform_swap, compute_pool_swap,
  aggregate_outgoing_fees, assert_max_spread,
}

-- The amounts of a performed swap as coins of the asked denom.
abbrev pub result_of : PoolInfo → Text → SwapComputation → SwapResult
result_of pool denom c = record {
  return_asset = record { denom = denom; amount = c.return_amount };
  burn_fee_asset = record { denom = denom; amount = c.burn_fee_amount };
  protocol_fee_asset = record { denom = denom; amount = c.protocol_fee_amount };
  swap_fee_asset = record { denom = denom; amount = c.swap_fee_amount };
  extra_fees_asset = record { denom = denom; amount = c.extra_fees_amount };
  pool_info = pool;
  spread_amount = c.spread_amount;
}

-- The steps of a swap that has been performed, each with its value.
pub record IsPerformed (x : External) (s : Storage) (offer_asset : Coin)
    (ask pool_identifier : Text) (belief_price max_spread : Option ℕ) (out : Storage × SwapResult)
    : Type 0 where
  pub pool : PoolInfo
  pub found : Indexes
  pub amounts : SwapComputation
  pub assets : List Coin
  pub pool_at : may_load pool_identifier s.pools ≡ some pool
  pub indexes : get_asset_indexes_in_pool pool offer_asset.denom ask ≡ ok found
  pub computed :
      compute_swap x
        (length pool.assets)
        found.offer_asset_in_pool.amount
        found.ask_asset_in_pool.amount
        offer_asset.amount
        pool.pool_fees
        pool.pool_type
        found.offer_decimal
        found.ask_decimal
      ≡ ok amounts
  pub within_spread :
      assert_max_spread x belief_price max_spread offer_asset.amount amounts.return_amount
        amounts.spread_amount
      ≡ ok tt
  pub moved :
      move_balances pool.assets found.offer_index found.ask_index offer_asset.amount
        amounts.return_amount
        (amounts.protocol_fee_amount + amounts.burn_fee_amount)
      ≡ ok assets
  pub saved : save_pool pool_identifier (record pool { assets = assets }) s ≡ ok (out.0)
  pub result :
      out.1 ≡ result_of (record pool { assets = assets }) found.ask_asset_in_pool.denom amounts

compute_pool_swap-indexes :
    (x : External) (pool : PoolInfo) (offer_asset : Coin) (ask : Text) (found : Indexes)
    (amounts : SwapComputation)
    → compute_pool_swap x pool offer_asset ask ≡ ok (found, amounts)
    → get_asset_indexes_in_pool pool offer_asset.denom ask ≡ ok found
unfolding compute_pool_swap
compute_pool_swap-indexes x pool offer_asset ask found amounts h = ground arith

compute_pool_swap-amounts :
    (x : External) (pool : PoolInfo) (offer_asset : Coin) (ask : Text) (found : Indexes)
    (amounts : SwapComputation)
    → compute_pool_swap x pool offer_asset ask ≡ ok (found, amounts)
    → compute_swap x
        (length pool.assets)
        found.offer_asset_in_pool.amount
        found.ask_asset_in_pool.amount
        offer_asset.amount
        pool.pool_fees
        pool.pool_type
        found.offer_decimal
        found.ask_decimal
      ≡ ok amounts
unfolding compute_pool_swap
compute_pool_swap-amounts x pool offer_asset ask found amounts h = ground arith

aggregate_outgoing_fees-sum :
    (c : SwapComputation) (fees : ℕ)
    → aggregate_outgoing_fees c ≡ ok fees
    → fees ≡ c.protocol_fee_amount + c.burn_fee_amount
unfolding aggregate_outgoing_fees
aggregate_outgoing_fees-sum c fees h = ground arith

pub perform_swap-IsPerformed :
    (x : External) (s : Storage) (offer_asset : Coin) (ask pool_identifier : Text)
    (belief_price max_spread : Option ℕ) (out : Storage × SwapResult)
    → perform_swap x s offer_asset ask pool_identifier belief_price max_spread ≡ ok out
    → IsPerformed x s offer_asset ask pool_identifier belief_price max_spread out
unfolding perform_swap get_pool_by_identifier
perform_swap-IsPerformed x s offer_asset ask pool_identifier belief_price max_spread out h =
    let (pool, e1, h1) = >>=-eq-ok (get_pool_by_identifier s pool_identifier) _ h in
    let ((found, amounts), e2, h2) = >>=-eq-ok (compute_pool_swap x pool offer_asset ask) _ h1 in
    let (_, e3, h3) =
      >>=-eq-ok
        (assert_max_spread x belief_price max_spread offer_asset.amount amounts.return_amount
          amounts.spread_amount)
        _ h2 in
    let (fees, e4, h4) = >>=-eq-ok (aggregate_outgoing_fees amounts) _ h3 in
    let (assets, e5, h5) =
      >>=-eq-ok
        (move_balances pool.assets found.offer_index found.ask_index offer_asset.amount
          amounts.return_amount fees)
        _ h4 in
    let (s', e6, h6) =
      >>=-eq-ok (save_pool pool_identifier (record pool { assets = assets }) s) _ h5 in
    let fees_sum = aggregate_outgoing_fees-sum amounts fees e4 in
    record {
      pool = pool;
      found = found;
      amounts = amounts;
      assets = assets;
      pool_at = ok_or-eq-ok (may_load pool_identifier s.pools) un_existing_pool e1;
      indexes = compute_pool_swap-indexes x pool offer_asset ask found amounts e2;
      computed = compute_pool_swap-amounts x pool offer_asset ask found amounts e2;
      within_spread = e3;
      moved =
          subst
            (λ f.
              move_balances pool.assets found.offer_index found.ask_index offer_asset.amount
                amounts.return_amount f
              ≡ ok assets)
            fees_sum e5;
      saved =
          subst (λ o. save_pool pool_identifier (record pool { assets = assets }) s ≡ ok (o.0))
            (ok-injective h6) e6;
      result =
          subst
            (λ o.
              o.1
              ≡ result_of (record pool { assets = assets }) found.ask_asset_in_pool.denom amounts)
            (ok-injective h6) refl;
    }
