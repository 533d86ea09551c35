-- ===== src/Pool/Covered/Liquidity.antt =====
-- Liquidity: provide_liquidity and withdraw_liquidity of pool-manager/src/liquidity/commands.rs.
use stratosphere_contracts.Base.{
  ℕ, ◌+◌, ◌≡◌, some, List, [], ◌∷◌, arith, ok, >>=-eq-ok, ap, sym, subst, ensure, ok_or,
  ok_or-eq-ok, ok-injective, keep, ltb, leb, checked_add, checked_sub,
}
use stratosphere_contracts.Base.Text.{Text, codes, text_eq_iff}
use stratosphere_contracts.Base.Coins.{Coin, MessageInfo, coin_amount, amount_of}
use stratosphere_contracts.Base.Decimals.{one}
use stratosphere_contracts.Base.Dict.{may_load}
use stratosphere_contracts.Pool.Data.{
  send, burn_lp_asset, operation_disabled, payment_error, std_error, panic, un_existing_pool,
  invalid_lp_share_to_withdraw, PoolInfo, Message, Env, External,
}
use stratosphere_contracts.Pool.Storage.{Storage, get_pool_by_identifier, save_pool}
use stratosphere_contracts.Pool.Liquidity.{
  change_asset, compute_refunds, add_deposits, deduct_refunds, withdraw_liquidity,
}
use stratosphere_contracts.Pool.Books.{Lawful, reserves, held, paid, payment, save_pool-held}

add_asset-amount_of :
    (d : Text) (c : Coin) (assets assets' : List Coin)
    → change_asset (λ amount. checked_add 128 amount c.amount) c.denom assets ≡ ok assets'
    → amount_of d assets' ≡ amount_of d assets + coin_amount d c
unfolding change_asset amount_of coin_amount
add_asset-amount_of d c [] assets' h = cc
add_asset-amount_of d c (e ∷ es) assets' h =
    grind (arith, text_eq_iff e.denom c.denom, add_asset-amount_of d c es)

deduct_asset-amount_of :
    (d : Text) (c : Coin) (assets assets' : List Coin)
    → change_asset (λ amount. checked_sub amount c.amount) c.denom assets ≡ ok assets'
    → amount_of d assets' + coin_amount d c ≡ amount_of d assets
unfolding change_asset amount_of coin_amount
deduct_asset-amount_of d c [] assets' h = cc
deduct_asset-amount_of d c (e ∷ es) assets' h =
    grind (arith, text_eq_iff e.denom c.denom, deduct_asset-amount_of d c es)

pub add_deposits-amount_of :
    (d : Text) (deposits assets assets' : List Coin)
    → add_deposits deposits assets ≡ ok assets'
    → amount_of d assets' ≡ amount_of d assets + amount_of d deposits
unfolding add_deposits amount_of
add_deposits-amount_of d [] assets assets' h = ground arith
add_deposits-amount_of d (c ∷ cs) assets assets' h =
    let (changed, e, rest) =
      >>=-eq-ok (change_asset (λ amount. checked_add 128 amount c.amount) c.denom assets) _ h in
    omega (
      arith,
      add_asset-amount_of d c assets changed e,
      add_deposits-amount_of d cs changed assets' rest,
    )

pub deduct_refunds-amount_of :
    (d : Text) (refunds assets assets' : List Coin)
    → deduct_refunds refunds assets ≡ ok assets'
    → amount_of d assets' + amount_of d refunds ≡ amount_of d assets
unfolding deduct_refunds amount_of
deduct_refunds-amount_of d [] assets assets' h = ground arith
deduct_refunds-amount_of d (c ∷ cs) assets assets' h =
    let (changed, e, rest) =
      >>=-eq-ok (change_asset (λ amount. checked_sub amount c.amount) c.denom assets) _ h in
    omega (
      arith,
      deduct_asset-amount_of d c assets changed e,
      deduct_refunds-amount_of d cs changed assets' rest,
    )

-- The steps of a withdrawal that has been made, each with its value.
pub record IsWithdrawn (x : External) (env : Env) (info : MessageInfo) (pool_identifier : Text)
    (s : Storage) (out : Storage × List Message) : Type 0 where
  pub pool : PoolInfo
  pub amount : ℕ
  pub total_share : ℕ
  pub share_ratio : ℕ
  pub refunds : List Coin
  pub assets : List Coin
  pub pool_at : may_load pool_identifier s.pools ≡ some pool
  pub burned : x.must_pay info.funds pool.lp_denom ≡ some amount
  pub supply : env.total_share pool.lp_denom ≡ some total_share
  pub ratio : x.decimal256.from_ratio amount total_share ≡ some share_ratio
  pub computed : compute_refunds x share_ratio pool.assets ≡ ok refunds
  pub deducted : deduct_refunds (keep (λ c. ltb 0 c.amount) refunds) pool.assets ≡ ok assets
  pub saved : save_pool pool_identifier (record pool { assets = assets }) s ≡ ok (out.0)
  pub messages :
      out.1
      ≡ send info.sender (keep (λ c. ltb 0 c.amount) refunds)
        ∷ burn_lp_asset pool.lp_denom amount
        ∷ []

pub withdraw_liquidity-IsWithdrawn :
    (x : External) (env : Env) (info : MessageInfo) (pool_identifier : Text) (s : Storage)
    (out : Storage × List Message)
    → withdraw_liquidity x env info pool_identifier s ≡ ok out
    → IsWithdrawn x env info pool_identifier s out
unfolding withdraw_liquidity get_pool_by_identifier
withdraw_liquidity-IsWithdrawn x env info id s out h =
    let (_, _, h0) =
      >>=-eq-ok
        (ensure s.config.feature_toggle.withdrawals_enabled
          (operation_disabled (codes "withdraw_liquidity")))
        _ h in
    let (pool, e1, h1) = >>=-eq-ok (get_pool_by_identifier s id) _ h0 in
    let (amount, e2, h2) =
      >>=-eq-ok (ok_or (x.must_pay info.funds pool.lp_denom) payment_error) _ h1 in
    let (total_share, e3, h3) = >>=-eq-ok (ok_or (env.total_share pool.lp_denom) std_error) _ h2 in
    let (share_ratio, e4, h4) =
      >>=-eq-ok (ok_or (x.decimal256.from_ratio amount total_share) panic) _ h3 in
    let (_, e5, h5) = >>=-eq-ok (ensure (leb share_ratio one) invalid_lp_share_to_withdraw) _ h4 in
    let (refunds, e6, h6) = >>=-eq-ok (compute_refunds x share_ratio pool.assets) _ h5 in
    let (assets, e7, h7) =
      >>=-eq-ok (deduct_refunds (keep (λ c. ltb 0 c.amount) refunds) pool.assets) _ h6 in
    let (s', e8, h8) = >>=-eq-ok (save_pool id (record pool { assets = assets }) s) _ h7 in
    record {
      pool = pool;
      amount = amount;
      total_share = total_share;
      share_ratio = share_ratio;
      refunds = refunds;
      assets = assets;
      pool_at = ok_or-eq-ok (may_load id s.pools) un_existing_pool e1;
      burned = ok_or-eq-ok (x.must_pay info.funds pool.lp_denom) payment_error e2;
      supply = ok_or-eq-ok (env.total_share pool.lp_denom) std_error e3;
      ratio = ok_or-eq-ok (x.decimal256.from_ratio amount total_share) panic e4;
      computed = e6;
      deducted = e7;
      saved =
          subst (λ o. save_pool id (record pool { assets = assets }) s ≡ ok (o.0)) (ok-injective h8)
            e8;
      messages = ap (λ o. o.1) (sym (ok-injective h8));
    }

module _ (x : External) (law : Lawful x) (env : Env) where
  -- What the pools hold after a withdrawal, and what it pays out and burns, are what they held and
  -- the LP tokens that were sent.
  pub withdraw_liquidity-held :
      (info : MessageInfo) (pool_identifier : Text) (s s' : Storage) (ms : List Message)
      (charge : List Coin) (d : Text)
      → withdraw_liquidity x env info pool_identifier s ≡ ok (s', ms)
      → held d s' + paid charge d ms ≡ held d s + amount_of d info.funds
  unfolding reserves paid payment amount_of
  withdraw_liquidity-held info id s s' ms charge d h =
      let p = withdraw_liquidity-IsWithdrawn x env info id s (s', ms) h in
      rw p.messages (
        rw (law.must_pay_law info.funds p.pool.lp_denom p.amount p.burned) (
          omega (
            arith,
            save_pool-held d id p.pool (record p.pool { assets = p.assets }) s s' p.pool_at p.saved,
            deduct_refunds-amount_of d (keep (λ c. ltb 0 c.amount) p.refunds) p.pool.assets p.assets
                p.deducted,
          )))
