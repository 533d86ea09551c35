-- ===== src/Pool/Covered/Deposits.antt =====
-- Deposits: provide_liquidity of pool-manager/src/liquidity/commands.rs.
use stratosphere_contracts.Base.{
  ℕ, ◌+◌, ◌≤◌, ◌≡◌, ap, sym, subst, Option, some, none, List, [], ◌∷◌, ◌++◌, arith, ok, >>=-eq-ok,
  ensure, ok_or, ok_or-eq-ok, ok-injective, all, any, not, is_empty,
}
use stratosphere_contracts.Base.Text.{Text, codes, text_eq, text_eq_refl}
use stratosphere_contracts.Base.Coins.{Coin, MessageInfo, amount_of}
use stratosphere_contracts.Base.Dict.{may_load}
use stratosphere_contracts.Pool.Data.{
  PoolInfo, LiquidityProvisionData, Message, Env, External, std_error, un_existing_pool,
  operation_disabled, empty_assets, asset_mismatch,
}
use stratosphere_contracts.Pool.Storage.{Storage, get_pool_by_identifier, save_pool}
use stratosphere_contracts.Pool.Slippage.{assert_slippage_tolerance}
use stratosphere_contracts.Pool.Liquidity.{
  add_deposits, provide_liquidity, provide_deposits, provide_single_asset, provide_all_assets,
  compute_share, hand_out,
}
use stratosphere_contracts.Pool.Books.{
  Lawful, reserves, held, paid, payment, minted, minting, PoolsCovered, factory_charge, paid-append,
  minted-append, save_pool-held,
}
use stratosphere_contracts.Pool.Covered.Liquidity.{add_deposits-amount_of}

-- The steps of a deposit of two assets or more, each with its value.
pub record IsProvided (x : External) (env : Env) (sender receiver : Text)
    (provision : LiquidityProvisionData) (pool : PoolInfo) (deposits : List Coin) (s : Storage)
    (out : Storage × List Message) : Type 0 where
  pub total_share : ℕ
  pub share : ℕ
  pub first_messages : List Message
  pub handed : List Message
  pub pool_assets : List Coin
  pub supply : env.total_share pool.lp_denom ≡ some total_share
  pub computed :
      compute_share x env.contract_address pool deposits total_share ≡ ok (share, first_messages)
  pub minting :
      hand_out x env s.config.farm_manager_addr sender receiver pool.lp_denom share
        provision.unlocking_duration provision.lock_position_identifier
      ≡ ok handed
  pub added : add_deposits deposits pool.assets ≡ ok pool_assets
  pub saved :
      save_pool provision.pool_identifier (record pool { assets = pool_assets }) s ≡ ok (out.0)
  pub messages : out.1 ≡ first_messages ++ handed

pub provide_all_assets-IsProvided :
    (x : External) (env : Env) (sender receiver : Text) (provision : LiquidityProvisionData)
    (pool : PoolInfo) (deposits : List Coin) (s : Storage) (out : Storage × List Message)
    → provide_all_assets x env sender receiver provision pool deposits s ≡ ok out
    → IsProvided x env sender receiver provision pool deposits s out
unfolding provide_all_assets
provide_all_assets-IsProvided x env sender receiver provision pool deposits s out h =
    let (total_share, e1, h1) = >>=-eq-ok (ok_or (env.total_share pool.lp_denom) std_error) _ h in
    let ((share, first_messages), e2, h2) =
      >>=-eq-ok (compute_share x env.contract_address pool deposits total_share) _ h1 in
    let (_, e3, h3) =
      >>=-eq-ok
        (assert_slippage_tolerance x provision.slippage_tolerance deposits pool.assets
          pool.pool_type share total_share)
        _ h2 in
    let (handed, e4, h4) =
      >>=-eq-ok
        (hand_out x env s.config.farm_manager_addr sender receiver pool.lp_denom share
          provision.unlocking_duration provision.lock_position_identifier)
        _ h3 in
    let (pool_assets, e5, h5) = >>=-eq-ok (add_deposits deposits pool.assets) _ h4 in
    let (s', e6, h6) =
      >>=-eq-ok (save_pool provision.pool_identifier (record pool { assets = pool_assets }) s) _
        h5 in
    record {
      total_share = total_share;
      share = share;
      first_messages = first_messages;
      handed = handed;
      pool_assets = pool_assets;
      supply = ok_or-eq-ok (env.total_share pool.lp_denom) std_error e1;
      computed = e2;
      minting = e4;
      added = e5;
      saved =
          subst
            (λ o.
              save_pool provision.pool_identifier (record pool { assets = pool_assets }) s
              ≡ ok (o.0))
            (ok-injective h6) e6;
      messages = ap (λ o. o.1) (sym (ok-injective h6));
    }

compute_share-paid :
    (x : External) (contract : Text) (pool : PoolInfo) (deposits : List Coin) (total_share : ℕ)
    (share : ℕ) (ms : List Message) (charge : List Coin) (d : Text)
    → compute_share x contract pool deposits total_share ≡ ok (share, ms)
    → paid charge d ms ≡ 0
unfolding compute_share paid payment
compute_share-paid x contract pool deposits total_share share ms charge d h = grind arith

-- Only what is minted to the contract is sent on.
hand_out-paid :
    (x : External) (env : Env) (farm_manager sender receiver lp_denom : Text) (share : ℕ)
    (unlocking : Option ℕ) (lock : Option Text) (ms : List Message) (charge : List Coin) (d : Text)
    → hand_out x env farm_manager sender receiver lp_denom share unlocking lock ≡ ok ms
    → paid charge d ms ≤ minted env.contract_address d ms
unfolding hand_out paid payment minted minting amount_of
hand_out-paid x env fm sender receiver lp share none lock ms charge d h = grind arith
hand_out-paid x env fm sender receiver lp share (some duration) lock ms charge d h =
    grind (arith, text_eq_refl env.contract_address)

-- What every deposit goes through first.
pub record IsAccepted (x : External) (env : Env) (info : MessageInfo) (receiver : Option Text)
    (provision : LiquidityProvisionData) (s : Storage) (out : Storage × List Message) : Type 0 where
  pub pool : PoolInfo
  pub deposits : List Coin
  pub pool_at : may_load provision.pool_identifier s.pools ≡ some pool
  pub aggregated : x.aggregate_coins info.funds ≡ some deposits
  pub provided :
      provide_deposits x env info.sender
        (x.validate_addr_or_default receiver info.sender)
        provision
        pool
        deposits
        s
      ≡ ok out

pub provide_liquidity-IsAccepted :
    (x : External) (env : Env) (info : MessageInfo) (receiver : Option Text)
    (provision : LiquidityProvisionData) (s : Storage) (out : Storage × List Message)
    → provide_liquidity x env info receiver provision s ≡ ok out
    → IsAccepted x env info receiver provision s out
unfolding provide_liquidity get_pool_by_identifier
provide_liquidity-IsAccepted x env info receiver provision s out h =
    let (_, _, h0) =
      >>=-eq-ok
        (ensure s.config.feature_toggle.deposits_enabled
          (operation_disabled (codes "provide_liquidity")))
        _ h in
    let (pool, e1, h1) = >>=-eq-ok (get_pool_by_identifier s provision.pool_identifier) _ h0 in
    let (deposits, e2, h2) = >>=-eq-ok (ok_or (x.aggregate_coins info.funds) std_error) _ h1 in
    let (_, _, h3) = >>=-eq-ok (ensure (not (is_empty deposits)) empty_assets) _ h2 in
    let (_, _, h4) =
      >>=-eq-ok
        (ensure (all (λ asset. any (λ c. text_eq c.denom asset.denom) pool.assets) deposits)
          asset_mismatch)
        _ h3 in
    record {
      pool = pool;
      deposits = deposits;
      pool_at = ok_or-eq-ok (may_load provision.pool_identifier s.pools) un_existing_pool e1;
      aggregated = ok_or-eq-ok (x.aggregate_coins info.funds) std_error e2;
      provided = h4;
    }

module _ (x : External) (law : Lawful x) (env : Env) where
  provide_all_assets-held :
      (sender receiver : Text) (provision : LiquidityProvisionData) (pool : PoolInfo)
      (deposits : List Coin) (s s' : Storage) (ms : List Message) (charge : List Coin) (d : Text)
      → may_load provision.pool_identifier s.pools ≡ some pool
      → provide_all_assets x env sender receiver provision pool deposits s ≡ ok (s', ms)
      → held d s' + paid charge d ms
        ≤ held d s + amount_of d deposits + minted env.contract_address d ms
  unfolding reserves
  provide_all_assets-held sender receiver provision pool deposits s s' ms charge d at h =
      let p =
        provide_all_assets-IsProvided x env sender receiver provision pool deposits s (s', ms) h in
      rw p.messages (
        omega (
          arith,
          save_pool-held d provision.pool_identifier pool (record pool { assets = p.pool_assets }) s
              s' at p.saved,
          add_deposits-amount_of d deposits pool.assets p.pool_assets p.added,
          paid-append charge d p.first_messages p.handed,
          minted-append env.contract_address d p.first_messages p.handed,
          compute_share-paid x env.contract_address pool deposits p.total_share p.share
              p.first_messages charge d p.computed,
          hand_out-paid x env s.config.farm_manager_addr sender receiver pool.lp_denom p.share
              provision.unlocking_duration provision.lock_position_identifier p.handed charge d
              p.minting,
        ))

  provide_single_asset-held :
      (receiver : Text) (provision : LiquidityProvisionData) (pool : PoolInfo) (deposit : Coin)
      (s s' : Storage) (ms : List Message) (charge : List Coin) (d : Text)
      → provide_single_asset x env receiver provision pool deposit s ≡ ok (s', ms)
      → held d s' + paid charge d ms ≡ held d s
  unfolding provide_single_asset held paid payment
  provide_single_asset-held receiver provision pool deposit s s' ms charge d h = grind arith

  provide_deposits-held :
      (sender receiver : Text) (provision : LiquidityProvisionData) (pool : PoolInfo)
      (deposits : List Coin) (s s' : Storage) (ms : List Message) (charge : List Coin) (d : Text)
      → may_load provision.pool_identifier s.pools ≡ some pool
      → provide_deposits x env sender receiver provision pool deposits s ≡ ok (s', ms)
      → held d s' + paid charge d ms
        ≤ held d s + amount_of d deposits + minted env.contract_address d ms
  unfolding provide_deposits
  provide_deposits-held sender receiver provision pool [] s s' ms charge d at h = cc
  provide_deposits-held sender receiver provision pool (c ∷ []) s s' ms charge d at h =
      omega (arith, provide_single_asset-held receiver provision pool c s s' ms charge d h)
  provide_deposits-held sender receiver provision pool (c ∷ e ∷ cs) s s' ms charge d at h =
      provide_all_assets-held sender receiver provision pool (c ∷ e ∷ cs) s s' ms charge d at h

  pub provide_liquidity-PoolsCovered :
      (info : MessageInfo) (receiver : Option Text) (provision : LiquidityProvisionData)
      (s s' : Storage) (ms : List Message) (d : Text)
      → provide_liquidity x env info receiver provision s ≡ ok (s', ms)
      → PoolsCovered env d s info.funds (s', ms)
  unfolding PoolsCovered
  provide_liquidity-PoolsCovered info receiver provision s s' ms d h =
      let p = provide_liquidity-IsAccepted x env info receiver provision s (s', ms) h in
      omega (
        arith,
        law.aggregate_law info.funds p.deposits d p.aggregated,
        provide_deposits-held info.sender (x.validate_addr_or_default receiver info.sender)
            provision p.pool p.deposits s s' ms (factory_charge env) d p.pool_at p.provided,
      )
