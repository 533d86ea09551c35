-- ===== src/Pool/Kept/Messages.antt =====
-- What every message of the pool manager preserves (pool-manager/src).
use stratosphere_contracts.Base.{
  ℕ, ◌≡◌, subst, Option, some, none, List, [], ◌∷◌, ◌++◌, ok-injective, keep, ltb, arith, ok, err,
  >>=-eq-ok, Result-cases, inl, inr, ◌+◌,
}
use stratosphere_contracts.Base.Text.{Text}
use stratosphere_contracts.Base.Coins.{Coin, MessageInfo}
use stratosphere_contracts.Base.Dict.{may_load}
use stratosphere_contracts.Pool.Data.{
  PoolInfo, PoolFee, PoolType, LiquidityProvisionData, SwapOperation, Message, Env, External,
}
use stratosphere_contracts.Pool.Storage.{Storage, save_pool}
use stratosphere_contracts.Pool.Swaps.{SwapResult, perform_swap, swap, send_coin, burn_coin}
use stratosphere_contracts.Pool.Router.{swap_in_turn}
use stratosphere_contracts.Pool.Liquidity.{
  provide_deposits, provide_single_asset, withdraw_liquidity,
}
use stratosphere_contracts.Pool.Contract.{
  ExecuteMsg, ConfigUpdate, execute, update_config, create_pool_msg, provide_liquidity_msg,
  swap_msg, withdraw_liquidity_msg, execute_swap_operations_msg, update_config_msg,
}
use stratosphere_contracts.Pool.Covered.Routes.{execute_swap_operations-IsRouted}
use stratosphere_contracts.Pool.Covered.Liquidity.{withdraw_liquidity-IsWithdrawn}
use stratosphere_contracts.Pool.Covered.Deposits.{
  provide_all_assets-IsProvided, provide_liquidity-IsAccepted,
}
use stratosphere_contracts.Pool.Covered.Pools.{IsCreated, create_pool-IsCreated}
use stratosphere_contracts.Pool.Performed.{perform_swap-IsPerformed}
use stratosphere_contracts.Pool.Shares.Roundtrip.{denoms_of}
use stratosphere_contracts.Pool.Kept.Pools.{
  add_deposits-denoms, deduct_refunds-denoms, move_balances-denoms,
}

-- A predicate of the storage that the contract's three ways of treating its pools preserve: saving
-- one with other balances of the same denoms, creating one, and leaving them alone.
pub record IsPreserved (Q : Storage → Type 0) (x : External) : Type 0 where
  pub resaved :
      (k : Text) (pool : PoolInfo) (assets : List Coin) (s s' : Storage)
      → Q s
      → may_load k s.pools ≡ some pool
      → denoms_of assets ≡ denoms_of pool.assets
      → save_pool k (record pool { assets = assets }) s ≡ ok s'
      → Q s'
  pub created :
      (env : Env) (info : MessageInfo) (asset_denoms : List Text) (asset_decimals : List ℕ)
      (pool_fees : PoolFee) (pool_type : PoolType) (pool_identifier : Option Text) (s : Storage)
      (out : Storage × List Message)
      → Q s
      → IsCreated x env info asset_denoms asset_decimals pool_fees pool_type pool_identifier s out
      → Q (out.0)
  pub same_pools : (s s' : Storage) → s'.pools ≡ s.pools → Q s → Q s'

-- The state after a list of messages, where a refused message changes nothing.
abbrev pub after_execute : External → Env × MessageInfo × ExecuteMsg → Storage → Storage
after_execute x (env, info, msg) s = elim (execute x env info msg s) [ ok out ↦ out.0 | err e ↦ s ]

unfoldable pub after_executes : External → List (Env × MessageInfo × ExecuteMsg) → Storage → Storage
after_executes x [] s = s
after_executes x (t ∷ ts) s = after_executes x ts (after_execute x t s)

provide_single_asset-pools :
    (x : External) (env : Env) (receiver : Text) (provision : LiquidityProvisionData)
    (pool : PoolInfo) (deposit : Coin) (s : Storage) (out : Storage × List Message)
    → provide_single_asset x env receiver provision pool deposit s ≡ ok out
    → (out.0).pools ≡ s.pools
unfolding provide_single_asset
provide_single_asset-pools x env receiver provision pool deposit s out h = grind arith

pub update_config-pools :
    (x : External) (info : MessageInfo) (u : ConfigUpdate) (s : Storage)
    (out : Storage × List Message)
    → update_config x info u s ≡ ok out
    → (out.0).pools ≡ s.pools
unfolding update_config
update_config-pools x info u s out h = grind arith

module _ (Q : Storage → Type 0) (x : External) (preserved : IsPreserved Q x) where
  perform_swap_keeps :
      (s : Storage) (offer_asset : Coin) (ask pool_identifier : Text)
      (belief_price max_spread : Option ℕ) (out : Storage × SwapResult)
      → Q s
      → perform_swap x s offer_asset ask pool_identifier belief_price max_spread ≡ ok out
      → Q (out.0)
  perform_swap_keeps s offer_asset ask id bp m out kept h =
      let p = perform_swap-IsPerformed x s offer_asset ask id bp m out h in
      preserved.resaved id p.pool p.assets s (out.0) kept p.pool_at
        (move_balances-denoms p.pool.assets p.assets p.found.offer_index p.found.ask_index
          offer_asset.amount p.amounts.return_amount
          (p.amounts.protocol_fee_amount + p.amounts.burn_fee_amount) p.moved)
        p.saved

  swap_in_turn_keeps :
      (f : Text) (m : Option ℕ) (os : List SwapOperation) (s : Storage) (offer : Coin)
      (fees : List Message) (out : Storage × Coin × List Message)
      → Q s
      → swap_in_turn x f m os s offer fees ≡ ok out
      → Q (out.0)
  unfolding swap_in_turn
  swap_in_turn_keeps f m [] s offer fees out kept h = subst (λ o. Q (o.0)) (ok-injective h) kept
  swap_in_turn_keeps f m (o ∷ os) s offer fees out kept h =
      let (swapped, e, rest) =
        >>=-eq-ok (perform_swap x s offer o.token_out_denom o.pool_identifier none m) _ h in
      swap_in_turn_keeps f m os (swapped.0) (swapped.1.return_asset)
        (fees ++ burn_coin (swapped.1.burn_fee_asset) ++ send_coin f (swapped.1.protocol_fee_asset))
        out (perform_swap_keeps s offer o.token_out_denom o.pool_identifier none m swapped kept e)
        rest

  swap_keeps :
      (info : MessageInfo) (ask : Text) (bp m : Option ℕ) (receiver : Option Text)
      (pool_identifier : Text) (s : Storage) (out : Storage × List Message)
      → Q s
      → swap x info ask bp m receiver pool_identifier s ≡ ok out
      → Q (out.0)
  unfolding swap
  swap_keeps info ask bp m receiver id s out kept h =
      grind
        (arith, λ (c : Coin) (o : Storage × SwapResult). perform_swap_keeps s c ask id bp m o kept)

  withdraw_liquidity_keeps :
      (env : Env) (info : MessageInfo) (pool_identifier : Text) (s : Storage)
      (out : Storage × List Message)
      → Q s
      → withdraw_liquidity x env info pool_identifier s ≡ ok out
      → Q (out.0)
  withdraw_liquidity_keeps env info id s out kept h =
      let p = withdraw_liquidity-IsWithdrawn x env info id s out h in
      preserved.resaved id p.pool p.assets s (out.0) kept p.pool_at
        (deduct_refunds-denoms (keep (λ c. ltb 0 c.amount) p.refunds) p.pool.assets p.assets
          p.deducted)
        p.saved

  provide_deposits_keeps :
      (env : Env) (sender receiver : Text) (provision : LiquidityProvisionData) (pool : PoolInfo)
      (deposits : List Coin) (s : Storage) (out : Storage × List Message)
      → Q s
      → may_load provision.pool_identifier s.pools ≡ some pool
      → provide_deposits x env sender receiver provision pool deposits s ≡ ok out
      → Q (out.0)
  unfolding provide_deposits
  provide_deposits_keeps env sender receiver provision pool [] s out kept at h = cc
  provide_deposits_keeps env sender receiver provision pool (c ∷ []) s out kept at h =
      preserved.same_pools s (out.0)
        (provide_single_asset-pools x env receiver provision pool c s out h) kept
  provide_deposits_keeps env sender receiver provision pool (c ∷ e ∷ cs) s out kept at h =
      let p =
        provide_all_assets-IsProvided x env sender receiver provision pool (c ∷ e ∷ cs) s out h in
      preserved.resaved provision.pool_identifier pool p.pool_assets s (out.0) kept at
        (add_deposits-denoms (c ∷ e ∷ cs) pool.assets p.pool_assets p.added) p.saved

  pub execute_keeps :
      (env : Env) (info : MessageInfo) (msg : ExecuteMsg) (s : Storage)
      (out : Storage × List Message)
      → Q s
      → execute x env info msg s ≡ ok out
      → Q (out.0)
  unfolding execute
  execute_keeps env info (create_pool_msg denoms decimals fees kind chosen) s out kept h =
      preserved.created env info denoms decimals fees kind chosen s out kept
        (create_pool-IsCreated x env info denoms decimals fees kind chosen s out h)
  execute_keeps env info (provide_liquidity_msg receiver provision) s out kept h =
      let p = provide_liquidity-IsAccepted x env info receiver provision s out h in
      provide_deposits_keeps env info.sender (x.validate_addr_or_default receiver info.sender)
        provision p.pool p.deposits s out kept p.pool_at p.provided
  execute_keeps env info (swap_msg ask bp m receiver id) s out kept h =
      swap_keeps info ask bp m receiver id s out kept h
  execute_keeps env info (withdraw_liquidity_msg id) s out kept h =
      withdraw_liquidity_keeps env info id s out kept h
  execute_keeps env info (execute_swap_operations_msg os least receiver m) s out kept h =
      let p = execute_swap_operations-IsRouted x info os least receiver m s out h in
      swap_in_turn_keeps s.config.fee_collector_addr m os s
        (record { denom = p.first.token_in_denom; amount = p.offer_amount }) []
        (out.0, p.output, p.fee_messages) kept p.routed
  execute_keeps env info (update_config_msg u) s out kept h =
      preserved.same_pools s (out.0) (update_config-pools x info u s out h) kept

  -- A refused message changes nothing.
  step_keeps :
      (env : Env) (info : MessageInfo) (msg : ExecuteMsg) (s : Storage)
      → Q s
      → Q (after_execute x (env, info, msg) s)
  step_keeps env info msg s kept = elim (Result-cases (execute x env info msg s)) [
    | inl (out, e) ↦ rw (e, after_execute) (execute_keeps env info msg s out kept e)
    | inr (problem, e) ↦ rw (e, after_execute) kept
  ]

  pub after_executes_keeps :
      (ts : List (Env × MessageInfo × ExecuteMsg)) (s : Storage) → Q s → Q (after_executes x ts s)
  unfolding after_executes
  after_executes_keeps [] s kept = kept
  after_executes_keeps ((env, info, msg) ∷ ts) s kept =
      after_executes_keeps ts (after_execute x (env, info, msg) s) (step_keeps env info msg s kept)
