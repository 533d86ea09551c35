-- ===== src/Pool/Guards.antt =====
-- What the feature toggles, the owner and the spread limit refuse (pool-manager/src).
use native.Mathlib.Nat.{mul-le-mul_right, lt-div-mul-add}
use stratosphere_contracts.Base.{
  ℕ, suc, ◌+◌, ◌*◌, ◌/◌, ◌≤◌, ◌<◌, ◌≡◌, sym, ◌∙◌, false, Option, some, none, List, [], ◌∷◌, ◌++◌,
  arith, ok, err, >>=-eq-ok, if◌then◌else◌, leb, ok_or, ok_or-eq-ok, ensure-eq-ok, leb→le,
  checked_add,
}
use stratosphere_contracts.Base.Text.{Text, codes}
use stratosphere_contracts.Base.Coins.{Coin, MessageInfo}
use stratosphere_contracts.Base.Decimals.{one}
use stratosphere_contracts.Pool.Data.{
  FeatureToggle, Message, Env, External, LiquidityProvisionData, operation_disabled, panic,
  std_error, PoolInfo, SwapOperation,
}
use stratosphere_contracts.Pool.Storage.{Storage}
use stratosphere_contracts.Pool.Contract.{
  ExecuteMsg, ConfigUpdate, execute, update_config, create_pool_msg, provide_liquidity_msg,
  swap_msg, withdraw_liquidity_msg, execute_swap_operations_msg, update_config_msg,
}
use stratosphere_contracts.Pool.Swaps.{
  SwapResult, perform_swap, swap, assert_max_spread, spread_limit, send_coin, burn_coin,
}
use stratosphere_contracts.Pool.Router.{swap_in_turn, execute_swap_operations}
use stratosphere_contracts.Pool.Liquidity.{
  provide_liquidity, provide_deposits, provide_single_asset, withdraw_liquidity,
}
use stratosphere_contracts.Pool.Performed.{perform_swap-IsPerformed}
use stratosphere_contracts.Pool.Books.{Lawful, save_pool-config}
use stratosphere_contracts.Pool.Covered.Routes.{execute_swap_operations-IsRouted}
use stratosphere_contracts.Pool.Covered.Liquidity.{withdraw_liquidity-IsWithdrawn}
use stratosphere_contracts.Pool.Covered.Deposits.{
  provide_all_assets-IsProvided, provide_liquidity-IsAccepted,
}
use stratosphere_contracts.Pool.Covered.Pools.{create_pool-IsCreated, new_pool}

-- The operation that the toggles refuse for a message, if any.
unfoldable pub disabled_operation : FeatureToggle → ExecuteMsg → Option Text
disabled_operation t (create_pool_msg denoms decimals fees kind chosen) = none
disabled_operation t (provide_liquidity_msg receiver provision) =
    if t.deposits_enabled then none else some (codes "provide_liquidity")
disabled_operation t (swap_msg ask bp m receiver id) =
    if t.swaps_enabled then none else some (codes "swap")
disabled_operation t (withdraw_liquidity_msg id) =
    if t.withdrawals_enabled then none else some (codes "withdraw_liquidity")
disabled_operation t (execute_swap_operations_msg os least receiver m) =
    if t.swaps_enabled then none else some (codes "swap")
disabled_operation t (update_config_msg u) = none

-- A message whose operation is switched off by a feature toggle is refused with the error
-- that names the operation.
pub execute-disabled :
    (x : External) (env : Env) (info : MessageInfo) (msg : ExecuteMsg) (s : Storage) (name : Text)
    → disabled_operation s.config.feature_toggle msg ≡ some name
    → execute x env info msg s ≡ err (operation_disabled name)
unfolding disabled_operation execute provide_liquidity swap withdraw_liquidity
    execute_swap_operations
execute-disabled x env info (create_pool_msg denoms decimals fees kind chosen) s name h = cc
execute-disabled x env info (provide_liquidity_msg receiver provision) s name h = grind arith
execute-disabled x env info (swap_msg ask bp m receiver id) s name h = grind arith
execute-disabled x env info (withdraw_liquidity_msg id) s name h = grind arith
execute-disabled x env info (execute_swap_operations_msg os least receiver m) s name h = grind arith
execute-disabled x env info (update_config_msg u) s name h = cc

ratio_below : (n k l : ℕ) → 0 < k → n / k ≤ l → n < suc l * k
ratio_below n k l pos h = omega (arith, lt-div-mul-add {a = n} pos, mul-le-mul_right k h)

assert_max_spread-below :
    (x : External) (law : Lawful x) (m : Option ℕ) (offer return spread : ℕ)
    → assert_max_spread x none m offer return spread ≡ ok tt
    → spread * one < suc (spread_limit m) * (return + spread)
unfolding assert_max_spread
assert_max_spread-below x law m offer return spread h =
    let (total, e1, h1) = >>=-eq-ok (ok_or (checked_add 128 return spread) panic) _ h in
    let (ratio, e2, h2) = >>=-eq-ok (ok_or (x.decimal256.from_ratio spread total) panic) _ h1 in
    let total_eq : total ≡ return + spread = ground arith in
    let le =
      leb→le ratio (spread_limit m) (ensure-eq-ok (leb ratio (spread_limit m)) std_error h2) in
    let e2' = ok_or-eq-ok (x.decimal256.from_ratio spread total) panic e2 in
    let positive : 0 < total = grind (arith, law.decimal256_law.from_ratio_law spread total) in
    let rounded : ratio ≡ spread * one / total =
      grind (arith, law.decimal256_law.from_ratio_law spread total) in
    rw (sym total_eq)
      (ratio_below (spread * one) total (spread_limit m) positive (rw (sym rounded) le))

-- With lawful libraries, a swap performed without a belief price has a spread, in atomics,
-- below one more than the allowed spread times the return amount and the spread together.
pub perform_swap-spread :
    (x : External) (law : Lawful x) (s : Storage) (offer_asset : Coin) (ask pool_identifier : Text)
    (max_spread : Option ℕ) (s' : Storage) (r : SwapResult)
    → perform_swap x s offer_asset ask pool_identifier none max_spread ≡ ok (s', r)
    → r.spread_amount * one
      < suc (spread_limit max_spread) * (r.return_asset.amount + r.spread_amount)
perform_swap-spread x law s offer_asset ask id m s' r h =
    let p = perform_swap-IsPerformed x s offer_asset ask id none m (s', r) h in
    rw p.result (
      assert_max_spread-below x law m offer_asset.amount p.amounts.return_amount
        p.amounts.spread_amount p.within_spread)

perform_swap-config :
    (x : External) (s : Storage) (offer_asset : Coin) (ask pool_identifier : Text)
    (belief_price max_spread : Option ℕ) (out : Storage × SwapResult)
    → perform_swap x s offer_asset ask pool_identifier belief_price max_spread ≡ ok out
    → (out.0).config ≡ s.config
perform_swap-config x s offer_asset ask id bp m out h =
    let p = perform_swap-IsPerformed x s offer_asset ask id bp m out h in
    save_pool-config id (record p.pool { assets = p.assets }) s (out.0) p.saved

swap_in_turn-config :
    (x : External) (f : Text) (m : Option ℕ) (os : List SwapOperation) (s : Storage) (offer : Coin)
    (fees : List Message) (out : Storage × Coin × List Message)
    → swap_in_turn x f m os s offer fees ≡ ok out
    → (out.0).config ≡ s.config
unfolding swap_in_turn
swap_in_turn-config x f m [] s offer fees out h = grind arith
swap_in_turn-config x f m (o ∷ os) s offer fees out h =
    let (swapped, e, rest) =
      >>=-eq-ok (perform_swap x s offer o.token_out_denom o.pool_identifier none m) _ h in
    swap_in_turn-config x f m os (swapped.0) (swapped.1.return_asset)
      (fees ++ burn_coin (swapped.1.burn_fee_asset) ++ send_coin f (swapped.1.protocol_fee_asset))
      out rest
    ∙ perform_swap-config x s offer o.token_out_denom o.pool_identifier none m swapped e

provide_deposits-config :
    (x : External) (env : Env) (sender receiver : Text) (provision : LiquidityProvisionData)
    (pool : PoolInfo) (deposits : List Coin) (s : Storage) (out : Storage × List Message)
    → provide_deposits x env sender receiver provision pool deposits s ≡ ok out
    → (out.0).config ≡ s.config
unfolding provide_deposits provide_single_asset
provide_deposits-config x env sender receiver provision pool [] s out h = cc
provide_deposits-config x env sender receiver provision pool (c ∷ []) s out h = grind arith
provide_deposits-config x env sender receiver provision pool (c ∷ e ∷ cs) s out h =
    let p =
      provide_all_assets-IsProvided x env sender receiver provision pool (c ∷ e ∷ cs) s out h in
    save_pool-config provision.pool_identifier (record pool { assets = p.pool_assets }) s (out.0)
      p.saved

swap-config :
    (x : External) (info : MessageInfo) (ask : Text) (bp m : Option ℕ) (receiver : Option Text)
    (pool_identifier : Text) (s : Storage) (out : Storage × List Message)
    → swap x info ask bp m receiver pool_identifier s ≡ ok out
    → (out.0).config ≡ s.config
unfolding swap
swap-config x info ask bp m receiver id s out h = grind (arith, perform_swap-config x s)

update_config-owner :
    (x : External) (info : MessageInfo) (u : ConfigUpdate) (s : Storage)
    (out : Storage × List Message)
    → x.is_owner info.sender ≡ false
    → update_config x info u s ≡ ok out
    → (out.0).config ≡ s.config
unfolding update_config
update_config-owner x info u s out e h = ground arith

-- A successful message to the pool manager of a sender who is not the owner leaves the
-- configuration, the feature toggles among it, as it was.
pub execute-config :
    (x : External) (env : Env) (info : MessageInfo) (msg : ExecuteMsg) (s : Storage)
    (out : Storage × List Message)
    → x.is_owner info.sender ≡ false
    → execute x env info msg s ≡ ok out
    → (out.0).config ≡ s.config
unfolding execute
execute-config x env info (create_pool_msg denoms decimals fees kind chosen) s out e h =
    let p = create_pool-IsCreated x env info denoms decimals fees kind chosen s out h in
    save_pool-config p.identifier (new_pool x env p.identifier denoms decimals fees kind)
      (record s { pool_counter = p.pool_counter }) (out.0) p.saved
execute-config x env info (provide_liquidity_msg receiver provision) s out e h =
    let p = provide_liquidity-IsAccepted x env info receiver provision s out h in
    provide_deposits-config x env info.sender (x.validate_addr_or_default receiver info.sender)
      provision p.pool p.deposits s out p.provided
execute-config x env info (swap_msg ask bp m receiver id) s out e h =
    swap-config x info ask bp m receiver id s out h
execute-config x env info (withdraw_liquidity_msg id) s out e h =
    let p = withdraw_liquidity-IsWithdrawn x env info id s out h in
    save_pool-config id (record p.pool { assets = p.assets }) s (out.0) p.saved
execute-config x env info (execute_swap_operations_msg os least receiver m) s out e h =
    let p = execute_swap_operations-IsRouted x info os least receiver m s out h in
    swap_in_turn-config x s.config.fee_collector_addr m os s
      (record { denom = p.first.token_in_denom; amount = p.offer_amount }) []
      (out.0, p.output, p.fee_messages) p.routed
execute-config x env info (update_config_msg u) s out e h = update_config-owner x info u s out e h
