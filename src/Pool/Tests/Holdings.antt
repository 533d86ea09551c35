-- ===== src/Pool/Tests/Holdings.antt =====
-- Deposits, withdrawals and pools at concrete input (pool-manager/src).
use stratosphere_contracts.Base.{
  ℕ, ◌+◌, ◌-◌, ◌*◌, ◌/◌, all, not, ◌≤◌, ◌<◌, ◌≡◌, refl, true, false, none, some, List, [], ◌∷◌,
  is_some, if◌then◌else◌, Result, ok, err,
}
use stratosphere_contracts.Base.Text.{Text, codes, text_eq, is_ascii_alphanumeric, to_string}
use stratosphere_contracts.Base.Coins.{Coin, MessageInfo, coin_amount, amount_of}
use stratosphere_contracts.Base.Dict.{may_load, save, replace, insert_in_order}
use stratosphere_contracts.Pool.Data.{
  ContractError, Message, PoolInfo, constant_product, stable_swap, Env,
}
use stratosphere_contracts.Pool.Storage.{Storage, get_pool_by_identifier, save_pool}
use stratosphere_contracts.Pool.Stable.{
  near, newton, decimal_with_precision, to_uint256_with_precision, next_stableswap_d, simulate,
  calculate_stableswap_d, new_pool_sum, next_stableswap_y, calculate_stableswap_y,
}
use stratosphere_contracts.Pool.Deposits.{
  compute_next_d, fold_d_prod, next_d, settle, sum_amounts, times_coins, compute_d,
  compute_lp_mint_amount_for_stableswap_deposit,
}
use stratosphere_contracts.Pool.Compute.{quote_stable_swap, quote}
use stratosphere_contracts.Pool.Creation.{
  validate_pool_identifier, sum_funds, get_paid_pool_fee_amount, paid_towards, pay_any, pay_all,
  pay_pool_fee, validate_fees_are_paid, validate_no_additional_funds_sent_with_pool_creation,
  occurrences, any_repeated, identify, create_pool,
}
use stratosphere_contracts.Pool.Liquidity.{
  change_asset, add_deposits, deduct_refunds, compute_asset_shares, first_value, later_share,
  compute_share, compute_refunds, withdraw_liquidity,
}
use stratosphere_contracts.Pool.Contract.{
  ExecuteMsg, instantiate, execute, create_pool_msg, withdraw_liquidity_msg,
}
use stratosphere_contracts.Pool.Books.{reserves, sent_to, PoolsCovered, factory_charge}
use stratosphere_contracts.Pool.Covered.Fees.{paid_apart}
use stratosphere_contracts.Pool.Covered.Execute.{fees_apart, execute-PoolsCovered}
use stratosphere_contracts.Pool.Covered.Pools.{new_pool}
use stratosphere_contracts.Pool.Shares.Refunds.{withdraw_liquidity-share}
use stratosphere_contracts.Pool.Shares.Minting.{
  asset_of, first_share-le, later_share-le, stable_share-le,
}
use stratosphere_contracts.Pool.Shares.Roundtrip.{denoms_of, deposit-withdraw}
use stratosphere_contracts.Pool.Guards.{execute-config}
use stratosphere_contracts.Pool.Paused.{all_off, after_executes-frozen}
use stratosphere_contracts.Pool.Roots.{IsRoot, calculate_stableswap_y-IsRoot}
use stratosphere_contracts.Pool.Created.{create_pool-new}
use stratosphere_contracts.Pool.Kept.Pools.{PoolsKept}
use stratosphere_contracts.Pool.Kept.Messages.{after_executes}
use stratosphere_contracts.Pool.Kept.Run.{after_executes-PoolsKept}
use stratosphere_contracts.Pool.Kept.Terms.{HasTerms, after_executes-HasTerms}
use stratosphere_contracts.Pool.Tests.World.{
  external, external-Lawful, square_root, coin, fees, pool, state, env, alice, start, answer,
}

abbrev lp_denom : Text
lp_denom = codes "factory/pools/o.ab.LP"

abbrev lp : List Coin
lp = coin lp_denom 1500 ∷ []

abbrev ab : PoolInfo
ab = pool (codes "o.ab") (codes "a") 1000000 (codes "b") 2000000

abbrev withdrawing : Result ContractError (Storage × List Message)
withdrawing = withdraw_liquidity external env (alice lp) (codes "o.ab") state

abbrev withdrawn : Storage × List Message
withdrawn = answer state [] withdrawing

abbrev fee_funds : List Coin
fee_funds = coin (codes "om") 100 ∷ coin (codes "uom") 7 ∷ []

abbrev creating : Result ContractError (Storage × List Message)
creating =
    create_pool external env (alice fee_funds) (codes "a" ∷ codes "c" ∷ []) (6 ∷ 18 ∷ []) fees
      constant_product none state

abbrev created : Storage × List Message
created = answer state [] creating

abbrev begun : Storage
begun = elim (instantiate external (alice []) start) [ ok s ↦ s | err e ↦ state ]

-- A deposit of 300 a and 500 b in the pool of 1000000 a and 2000000 b, and its LP tokens withdrawn.
abbrev deposits : List Coin
deposits = coin (codes "a") 300 ∷ coin (codes "b") 500 ∷ []

abbrev new_assets : List Coin
new_assets = coin (codes "a") 1000300 ∷ coin (codes "b") 2000500 ∷ []

abbrev refunds : List Coin
refunds = coin (codes "a") 250 ∷ coin (codes "b") 499 ∷ []

abbrev two_coins : ℕ → ℕ → List Coin
two_coins n m = coin (codes "a") n ∷ coin (codes "b") m ∷ []

liquidity_computed :
    (withdrawing ≡ ok withdrawn)
    × (creating ≡ ok created)
    × (instantiate external (alice []) start ≡ ok begun)
    × (later_share external constant_product ab.assets deposits 1000000 ≡ ok 250)
    × (add_deposits deposits ab.assets ≡ ok new_assets)
    × (external.decimal256.from_ratio 250 (1000000 + 250) ≡ some 249937515621094)
    × (compute_refunds external 249937515621094 new_assets ≡ ok refunds)
    × (any_repeated (denoms_of ab.assets) ≡ false)
    × (compute_share external (codes "pools") ab (two_coins 20 30) 0
        ≡ ok (14, Message.mint_lp_token lp_denom (codes "pools") 10 ∷ []))
    × (identify none 7 ≡ ok (codes "p.8", 8))
    × (execute external env (alice lp) (withdraw_liquidity_msg (codes "o.ab")) state ≡ ok withdrawn)
    × (may_load (codes "o.ab") state.pools ≡ some ab)
    × (external.must_pay lp lp_denom ≡ some 1500)
    × (external.is_owner (codes "alice") ≡ false)
    × (asset_of (codes "a") ab.assets ≡ some (coin (codes "a") 1000000))
    × (asset_of (codes "b") ab.assets ≡ some (coin (codes "b") 2000000))
    × (identify none 0 ≡ ok (codes "p.1", 1))
unfolding text_eq is_ascii_alphanumeric to_string may_load save replace insert_in_order coin_amount
    amount_of get_pool_by_identifier save_pool validate_pool_identifier sum_funds
    get_paid_pool_fee_amount paid_towards pay_any pay_all pay_pool_fee validate_fees_are_paid
    validate_no_additional_funds_sent_with_pool_creation occurrences any_repeated identify
    create_pool change_asset add_deposits deduct_refunds compute_asset_shares first_value
    later_share compute_share compute_refunds withdraw_liquidity instantiate execute square_root
liquidity_computed = (
  refl, refl, refl, refl, refl, refl, refl, refl, refl, refl, refl, refl, refl, refl, refl, refl,
  refl,
)

-- The stableswap: the invariant of two equal balances is their sum, it grows by a deposit, and a
-- small swap is close to one for one.
stable_computed :
    (compute_d 100 (two_coins 1000000 1000000) ≡ ok 2000000)
    × (compute_d 100 (two_coins 1100000 1000000) ≡ ok 2099976)
    × (compute_lp_mint_amount_for_stableswap_deposit 100
          (two_coins 1000000 1000000)
          (two_coins 1100000 1000000)
          500000
        ≡ ok (some 24994))
    × (quote external 2 1000000 1000000 1000 (stable_swap 100) 6 6 ≡ ok (1000, 0))
unfolding near newton decimal_with_precision to_uint256_with_precision next_stableswap_d
    calculate_stableswap_d new_pool_sum next_stableswap_y calculate_stableswap_y compute_next_d
    fold_d_prod next_d settle sum_amounts times_coins compute_d
    compute_lp_mint_amount_for_stableswap_deposit quote_stable_swap quote
stable_computed = (refl, refl, refl, refl)

-- Of two fees of 100 om, the pool's and the token factory's, only one is asked for where the token
-- factory names another denom besides.
abbrev om_or_uom : List Coin
om_or_uom = coin (codes "om") 100 ∷ coin (codes "uom") 7 ∷ []

fee_counted_twice :
    validate_fees_are_paid external
      (coin (codes "om") 100)
      om_or_uom
      (alice (coin (codes "om") 100 ∷ []))
    ≡ ok (coin (codes "om") 100 ∷ coin (codes "om") 100 ∷ [])
unfolding text_eq sum_funds get_paid_pool_fee_amount paid_towards pay_any pay_all pay_pool_fee
    validate_fees_are_paid
fee_counted_twice = refl

fees_computed :
    (fees_apart
        (create_pool_msg (codes "a" ∷ codes "c" ∷ []) (6 ∷ 18 ∷ []) fees constant_product none)
        state.config.pool_creation_fee
        (factory_charge env)
      ≡ true)
    × (execute external env
          (alice fee_funds)
          (create_pool_msg (codes "a" ∷ codes "c" ∷ []) (6 ∷ 18 ∷ []) fees constant_product none)
          state
        ≡ ok created)
unfolding paid_apart fees_apart factory_charge execute
fees_computed = (refl, liquidity_computed.1)

-- Offering 0.001 to a pool of two balances of 1, on six digits.
abbrev unit : ℕ
unit = 1000000000000000000

root_computed :
    calculate_stableswap_y external 2 unit unit 1000000000000000 100 6 simulate ≡ ok 999000
unfolding near newton decimal_with_precision to_uint256_with_precision next_stableswap_d
    calculate_stableswap_d new_pool_sum next_stableswap_y calculate_stableswap_y
root_computed = refl

calculate_stableswap_y-IsRoot_example :
    (d_decimal : ℕ) × (d : ℕ) × (sum_decimal : ℕ) × (pool_sum : ℕ) × (calculate_stableswap_d
        external 2 unit unit 100 6
      ≡ ok d_decimal)
    × (to_uint256_with_precision d_decimal 6 ≡ ok d)
    × (new_pool_sum external simulate unit unit 1000000000000000 ≡ ok sum_decimal)
    × (to_uint256_with_precision sum_decimal 6 ≡ ok pool_sum)
    × IsRoot d (pool_sum + d / (100 * 2)) (((d * d) / (pool_sum * 2) * d) / (100 * 2 * 2)) 999000
calculate_stableswap_y-IsRoot_example =
    calculate_stableswap_y-IsRoot external 2 unit unit 1000000000000000 100 6 simulate 999000
      root_computed

execute-PoolsCovered_example : PoolsCovered env (codes "om") state fee_funds created
execute-PoolsCovered_example =
    execute-PoolsCovered external external-Lawful env (alice fee_funds)
      (create_pool_msg (codes "a" ∷ codes "c" ∷ []) (6 ∷ 18 ∷ []) fees constant_product none) state
      (created.0) (created.1) (codes "om") fees_computed.0 fees_computed.1

withdraw_liquidity-share_example :
    sent_to (codes "alice") (codes "a") (withdrawn.1) * 1000000 ≤ reserves (codes "a") ab * 1500
withdraw_liquidity-share_example =
    withdraw_liquidity-share external external-Lawful env (alice lp) (codes "o.ab") state
      (withdrawn.0) (withdrawn.1) ab 1500 1000000 (codes "a") (liquidity_computed.0)
      (liquidity_computed.11) (liquidity_computed.12) refl

deposit-withdraw_example :
    (amount_of (codes "a") refunds ≤ amount_of (codes "a") deposits)
    × (amount_of (codes "b") refunds ≤ amount_of (codes "b") deposits)
deposit-withdraw_example =
    deposit-withdraw external external-Lawful ab.assets new_assets refunds (coin (codes "a") 300)
      (coin (codes "b") 500) (coin (codes "a") 1000000) (coin (codes "b") 2000000) 1000000 250
      249937515621094 (liquidity_computed.7) (liquidity_computed.14) (liquidity_computed.15)
      (liquidity_computed.3) (liquidity_computed.4) (liquidity_computed.5) (liquidity_computed.6)

later_share-le_example : (250 * 1000000 ≤ 300 * 1000000) × (250 * 2000000 ≤ 500 * 1000000)
later_share-le_example =
    later_share-le external ab.assets (coin (codes "a") 300) (coin (codes "b") 500) [] 1000000 250
      (coin (codes "a") 1000000) (coin (codes "b") 2000000) (liquidity_computed.3)
      (liquidity_computed.14) (liquidity_computed.15)

first_share-le_example : ((14 + 10) * (14 + 10) ≤ 20 * 30) × (0 < 14)
first_share-le_example =
    first_share-le external external-Lawful (codes "pools") ab (coin (codes "a") 20)
      (coin (codes "b") 30) [] 14 (Message.mint_lp_token lp_denom (codes "pools") 10 ∷ []) refl
      (liquidity_computed.8)

stable_share-le_example : (2000000 < 2099976) × (24994 * 2000000 ≤ 500000 * (2099976 - 2000000))
stable_share-le_example =
    stable_share-le 100 (two_coins 1000000 1000000) (two_coins 1100000 1000000) 500000 24994 2000000
      2099976 (stable_computed.2) (stable_computed.0) (stable_computed.1)

-- Messages of alice while everything is switched off.
abbrev closed : Storage
closed = record state {
  config = record state.config {
    feature_toggle = record {
      withdrawals_enabled = false;
      deposits_enabled = false;
      swaps_enabled = false;
    };
  };
}

abbrev tried : List (Env × MessageInfo × ExecuteMsg)
tried =
    (env, alice lp, withdraw_liquidity_msg (codes "o.ab"))
    ∷ (
      env,
      alice fee_funds,
      create_pool_msg (codes "a" ∷ codes "c" ∷ []) (6 ∷ 18 ∷ []) fees constant_product none,
    )
    ∷ []

pause_computed :
    (all_off closed.config.feature_toggle ≡ true)
    × (all (λ t. not (external.is_owner t.1.sender)) tried ≡ true)
    × (may_load (codes "o.ab") closed.pools ≡ some ab)
unfolding text_eq may_load all_off
pause_computed = (refl, refl, refl)

after_executes-frozen_example :
    (may_load (codes "o.ab") (after_executes external tried closed).pools ≡ some ab)
    × ((after_executes external tried closed).config ≡ closed.config)
after_executes-frozen_example =
    after_executes-frozen external tried closed (codes "o.ab") ab (pause_computed.0)
      (pause_computed.1) (pause_computed.2)

execute-config_example : (withdrawn.0).config ≡ state.config
execute-config_example =
    execute-config external env (alice lp) (withdraw_liquidity_msg (codes "o.ab")) state withdrawn
      (liquidity_computed.13) (liquidity_computed.10)

abbrev ac : PoolInfo
ac =
    new_pool external env (codes "p.1") (codes "a" ∷ codes "c" ∷ []) (6 ∷ 18 ∷ []) fees
      constant_product

create_pool-new_example :
    (is_some (may_load (codes "p.1") state.pools) ≡ false)
    × (may_load (codes "o.bc") (created.0).pools ≡ (
        if text_eq (codes "p.1") (codes "o.bc")
        then some ac
        else may_load (codes "o.bc") state.pools))
create_pool-new_example =
    create_pool-new external env (alice fee_funds) (codes "a" ∷ codes "c" ∷ []) (6 ∷ 18 ∷ []) fees
      constant_product none state (created.0) (created.1) (codes "p.1") 1 (codes "o.bc")
      (liquidity_computed.1) (liquidity_computed.16)

abbrev create_ac : Env × MessageInfo × ExecuteMsg
create_ac = (
  env,
  alice fee_funds,
  create_pool_msg (codes "a" ∷ codes "c" ∷ []) (6 ∷ 18 ∷ []) fees constant_product none,
)

after_executes-PoolsKept_example :
    PoolsKept (after_executes external (create_ac ∷ create_ac ∷ []) begun)
after_executes-PoolsKept_example =
    after_executes-PoolsKept external (alice []) start begun (create_ac ∷ create_ac ∷ [])
      (liquidity_computed.2)

after_executes-HasTerms_example : HasTerms (codes "o.ab") ab (
    after_executes external
      (create_ac ∷ (env, alice lp, withdraw_liquidity_msg (codes "o.ab")) ∷ [])
      state)
after_executes-HasTerms_example =
    after_executes-HasTerms external
      (create_ac ∷ (env, alice lp, withdraw_liquidity_msg (codes "o.ab")) ∷ []) state (codes "o.ab")
      ab (liquidity_computed.11)

-- A deposit of two of a pool's three assets draws on the third when its LP tokens are withdrawn.
abbrev abc : ℕ → ℕ → ℕ → List Coin
abc n m k = coin (codes "a") n ∷ coin (codes "b") m ∷ coin (codes "c") k ∷ []

third_asset_drawn :
    (later_share external constant_product
        (abc 1000000 1000000 1000000)
        (two_coins 1000 1000)
        1000000
      ≡ ok 1000)
    × (add_deposits (two_coins 1000 1000) (abc 1000000 1000000 1000000)
        ≡ ok (abc 1001000 1001000 1000000))
    × (external.decimal256.from_ratio 1000 (1000000 + 1000) ≡ some 999000999000999)
    × (compute_refunds external 999000999000999 (abc 1001000 1001000 1000000)
        ≡ ok (abc 999 999 999))
unfolding text_eq change_asset add_deposits compute_asset_shares later_share compute_refunds
third_asset_drawn = (refl, refl, refl, refl)
