-- ===== src/Pool/Covered/Pools.antt =====
-- The creation of pools: create_pool of pool-manager/src/manager/commands.rs.
use stratosphere_contracts.Base.{
  ℕ, ◌+◌, ◌≤◌, ◌≡◌, refl, ap, sym, subst, Option, some, none, List, [], ◌∷◌, ◌++◌, map, arith, ok,
  >>=-eq-ok, ensure, ok_or, ok_or-eq-ok, ok-injective, length, ◌==◌, if◌then◌else◌, is_some, is_ok,
  Bool, true, false, not, ◌&&◌, leb, leb→le, is_empty, ensure-eq-ok, Option-cases,
}
use stratosphere_contracts.Base.Text.{Text, codes}
use stratosphere_contracts.Base.Coins.{Coin, MessageInfo, coin_amount, amount_of}
use stratosphere_contracts.Base.Dict.{may_load, total-save}
use stratosphere_contracts.Pool.Data.{
  PoolInfo, PoolFee, PoolType, Message, Env, External, send, create_denom, asset_mismatch,
  too_many_assets, std_error, same_asset, pool_exists, un_existing_pool, invalid_lp_asset,
}
use stratosphere_contracts.Pool.Storage.{Storage, save_pool, get_pool_by_identifier}
use stratosphere_contracts.Pool.Creation.{
  validate_fees_are_paid, create_pool, any_repeated, identify, validate_pool_identifier,
  validate_no_additional_funds_sent_with_pool_creation,
}
use stratosphere_contracts.Pool.Books.{
  save_pool-pools, Lawful, reserves, held, paid, payment, factory_charge,
}
use stratosphere_contracts.Pool.Covered.Fees.{PaidApart, validate_fees_are_paid-le}

-- A new pool holds nothing.
no_reserves :
    (d : Text) (denoms : List Text)
    → amount_of d (map (λ e. record { denom = e; amount = 0 }) denoms) ≡ 0
unfolding amount_of coin_amount
no_reserves d [] = refl
no_reserves d (e ∷ es) = ground (arith, no_reserves d es)

abbrev pub new_pool : External → Env → Text → List Text → List ℕ → PoolFee → PoolType → PoolInfo
new_pool x env identifier asset_denoms asset_decimals pool_fees pool_type = record {
  pool_identifier = identifier;
  asset_denoms = asset_denoms;
  lp_denom =
      codes "factory/"
      ++ env.contract_address
      ++ codes "/"
      ++ (identifier ++ codes "." ++ x.lp_symbol);
  asset_decimals = asset_decimals;
  assets = map (λ denom. record { denom = denom; amount = 0 }) asset_denoms;
  pool_type = pool_type;
  pool_fees = pool_fees;
}

-- The steps of a creation that has succeeded, each with its value.
pub record IsCreated (x : External) (env : Env) (info : MessageInfo) (asset_denoms : List Text)
    (asset_decimals : List ℕ) (pool_fees : PoolFee) (pool_type : PoolType)
    (pool_identifier : Option Text) (s : Storage) (out : Storage × List Message) : Type 0 where
  pub denom_fees : List Coin
  pub answered : env.denom_creation_fee ≡ some denom_fees
  pub total_fees : List Coin
  pub identifier : Text
  pub pool_counter : ℕ
  pub several : 2 ≤ length asset_denoms
  pub same_length : length asset_denoms ≡ length asset_decimals
  pub at_most_four : length asset_denoms ≤ 4
  pub paid_fees :
      validate_fees_are_paid x s.config.pool_creation_fee denom_fees info ≡ ok total_fees
  pub distinct : any_repeated asset_denoms ≡ false
  pub identified : identify pool_identifier s.pool_counter ≡ ok (identifier, pool_counter)
  pub fresh : is_some (may_load identifier s.pools) ≡ false
  pub saved :
      save_pool identifier
        (new_pool x env identifier asset_denoms asset_decimals pool_fees pool_type)
        (record s { pool_counter = pool_counter })
      ≡ ok (out.0)
  pub messages :
      out.1
      ≡ (if s.config.pool_creation_fee.amount == 0
          then []
          else send s.config.fee_collector_addr (s.config.pool_creation_fee ∷ []) ∷ [])
        ++ create_denom (identifier ++ codes "." ++ x.lp_symbol) ∷ []

count_checks :
    (denoms : List Text) (decimals : List ℕ)
    → (not (is_empty denoms) && leb 2 (length denoms) && (length denoms == length decimals)) ≡ true
    → (2 ≤ length denoms) × (length denoms ≡ length decimals)
count_checks denoms decimals h = ground arith

not-true : (b : Bool) → not b ≡ true → b ≡ false
not-true true h = cc
not-true false h = refl

not_found :
    (o : Option PoolInfo) → not (is_ok (ok_or o un_existing_pool)) ≡ true → is_some o ≡ false
not_found none h = refl
not_found (some pool) h = cc

pub create_pool-IsCreated :
    (x : External) (env : Env) (info : MessageInfo) (asset_denoms : List Text)
    (asset_decimals : List ℕ) (pool_fees : PoolFee) (pool_type : PoolType)
    (pool_identifier : Option Text) (s : Storage) (out : Storage × List Message)
    → create_pool x env info asset_denoms asset_decimals pool_fees pool_type pool_identifier s
      ≡ ok out
    → IsCreated x env info asset_denoms asset_decimals pool_fees pool_type pool_identifier s out
unfolding create_pool get_pool_by_identifier
create_pool-IsCreated x env info denoms decimals fees kind chosen s out h =
    let (_, e1, h1) =
      >>=-eq-ok
        (ensure
          (not (is_empty denoms) && leb 2 (length denoms) && (length denoms == length decimals))
          asset_mismatch)
        _ h in
    let (_, e2, h2) =
      >>=-eq-ok (ensure (leb (length denoms) 4) (too_many_assets (length denoms))) _ h1 in
    let (denom_fees, e3, h3) = >>=-eq-ok (ok_or env.denom_creation_fee std_error) _ h2 in
    let (total_fees, e4, h4) =
      >>=-eq-ok (validate_fees_are_paid x s.config.pool_creation_fee denom_fees info) _ h3 in
    let (_, _, h5) =
      >>=-eq-ok (validate_no_additional_funds_sent_with_pool_creation info total_fees) _ h4 in
    let (_, e6, h6) = >>=-eq-ok (ensure (not (any_repeated denoms)) same_asset) _ h5 in
    let (_, _, h7) = >>=-eq-ok (ensure (x.fees_are_valid fees) std_error) _ h6 in
    let ((identifier, counter), e8, h8) = >>=-eq-ok (identify chosen s.pool_counter) _ h7 in
    let (_, _, h9) = >>=-eq-ok (validate_pool_identifier x identifier) _ h8 in
    let (_, e10, h10) =
      >>=-eq-ok
        (ensure (not (is_ok (ok_or (may_load identifier s.pools) un_existing_pool)))
          (pool_exists identifier))
        _ h9 in
    let pool = new_pool x env identifier denoms decimals fees kind in
    let (_, _, h11) =
      >>=-eq-ok (ensure (x.is_factory_token pool.lp_denom) (invalid_lp_asset pool.lp_denom)) _
        h10 in
    let (s', e12, h12) =
      >>=-eq-ok (save_pool identifier pool (record s { pool_counter = counter })) _ h11 in
    let counted = count_checks denoms decimals (ensure-eq-ok _ asset_mismatch e1) in
    record {
      denom_fees = denom_fees;
      answered = ok_or-eq-ok env.denom_creation_fee std_error e3;
      total_fees = total_fees;
      identifier = identifier;
      pool_counter = counter;
      several = counted.0;
      same_length = counted.1;
      at_most_four =
          leb→le (length denoms) 4
            (ensure-eq-ok (leb (length denoms) 4) (too_many_assets (length denoms)) e2);
      paid_fees = e4;
      distinct =
          not-true (any_repeated denoms) (ensure-eq-ok (not (any_repeated denoms)) same_asset e6);
      identified = e8;
      fresh = not_found (may_load identifier s.pools) (ensure-eq-ok _ (pool_exists identifier) e10);
      saved =
          subst (λ o. save_pool identifier pool (record s { pool_counter = counter }) ≡ ok (o.0))
            (ok-injective h12) e12;
      messages = ap (λ o. o.1) (sym (ok-injective h12));
    }

save_fresh-held :
    (d k : Text) (pool : PoolInfo) (s s' : Storage)
    → is_some (may_load k s.pools) ≡ false
    → save_pool k pool s ≡ ok s'
    → held d s' ≡ held d s + reserves d pool
unfolding held
save_fresh-held d k pool s s' h e =
    rw (save_pool-pools k pool s s' e)
      (grind (arith, total-save (reserves d) k pool s.pools, Option-cases (may_load k s.pools)))

-- What the pools hold does not change by a new one, and the fee that it pays on and the token
-- factory's have been sent.
pub create_pool-held :
    (x : External) (law : Lawful x) (env : Env) (info : MessageInfo) (asset_denoms : List Text)
    (asset_decimals : List ℕ) (pool_fees : PoolFee) (pool_type : PoolType)
    (pool_identifier : Option Text) (s s' : Storage) (ms : List Message) (d : Text)
    → PaidApart s.config.pool_creation_fee (factory_charge env)
    → create_pool x env info asset_denoms asset_decimals pool_fees pool_type pool_identifier s
      ≡ ok (s', ms)
    → held d s' + paid (factory_charge env) d ms ≤ held d s + amount_of d info.funds
unfolding factory_charge held reserves paid payment amount_of coin_amount
create_pool-held x law env info denoms decimals fees kind chosen s s' ms d apart h =
    let p = create_pool-IsCreated x env info denoms decimals fees kind chosen s (s', ms) h in
    let pool = new_pool x env p.identifier denoms decimals fees kind in
    let same : factory_charge env ≡ p.denom_fees = rw p.answered refl in
    let charged =
      validate_fees_are_paid-le x law s.config.pool_creation_fee p.denom_fees info p.total_fees d
        (subst (PaidApart s.config.pool_creation_fee) same apart) p.paid_fees in
    rw p.messages (
      grind (
        arith,
        save_fresh-held d p.identifier pool (record s { pool_counter = p.pool_counter }) s' p.fresh
            p.saved,
        no_reserves d denoms,
        charged,
      ))
