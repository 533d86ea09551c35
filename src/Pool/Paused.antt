-- ===== src/Pool/Paused.antt =====
-- The pools while the feature toggles are off (execute of pool-manager/src/contract.rs).
use stratosphere_contracts.Base.{
  ◌≡◌, refl, ap, ◌∙◌, some, List, [], ◌∷◌, Bool, true, false, not, all, ◌&&◌, arith, ok, inl, inr,
  Result-cases,
}
use stratosphere_contracts.Base.Text.{Text, codes, text_eq, text_eq_iff}
use stratosphere_contracts.Base.Coins.{MessageInfo}
use stratosphere_contracts.Base.Dict.{may_load}
use stratosphere_contracts.Pool.Data.{Config, PoolInfo, Message, Env, External, FeatureToggle}
use stratosphere_contracts.Pool.Storage.{Storage}
use stratosphere_contracts.Pool.Contract.{
  ExecuteMsg, execute, create_pool_msg, provide_liquidity_msg, swap_msg, withdraw_liquidity_msg,
  execute_swap_operations_msg, update_config_msg,
}
use stratosphere_contracts.Pool.Books.{save_pool-load}
use stratosphere_contracts.Pool.Covered.Pools.{create_pool-IsCreated, new_pool}
use stratosphere_contracts.Pool.Guards.{disabled_operation, execute-disabled, execute-config}
use stratosphere_contracts.Pool.Kept.Messages.{after_execute, after_executes, update_config-pools}

unfoldable pub all_off : FeatureToggle → Bool
all_off t = not t.withdrawals_enabled && (not t.deposits_enabled && not t.swaps_enabled)

-- The pool is stored as it is, under its identifier, in a configuration with every toggle off.
unfoldable pub IsFrozen : Text → PoolInfo → Config → Storage → Type 0
IsFrozen k pool config s = (s.config ≡ config) × (may_load k s.pools ≡ some pool)

all_off-cases :
    (t : FeatureToggle)
    → all_off t ≡ true
    → (t.withdrawals_enabled ≡ false) × (t.deposits_enabled ≡ false) × (t.swaps_enabled ≡ false)
unfolding all_off
all_off-cases t h = ground arith

module _ (x : External) (k : Text) (pool : PoolInfo) (config : Config)
    (off : all_off config.feature_toggle ≡ true) where
  refused :
      (env : Env) (info : MessageInfo) (msg : ExecuteMsg) (s : Storage) (name : Text)
      (out : Storage × List Message)
      → disabled_operation s.config.feature_toggle msg ≡ some name
      → execute x env info msg s ≡ ok out
      → may_load k (out.0).pools ≡ some pool
  refused env info msg s name out disabled h =
      let e = execute-disabled x env info msg s name disabled in cc

  execute-pool :
      (env : Env) (info : MessageInfo) (msg : ExecuteMsg) (s : Storage)
      (out : Storage × List Message)
      → IsFrozen k pool config s
      → execute x env info msg s ≡ ok out
      → may_load k (out.0).pools ≡ some pool
  unfolding IsFrozen disabled_operation execute
  execute-pool env info (create_pool_msg denoms decimals fees kind chosen) s out (same, at) h =
      let p = create_pool-IsCreated x env info denoms decimals fees kind chosen s out h in
      let load =
        save_pool-load p.identifier k (new_pool x env p.identifier denoms decimals fees kind)
          (record s { pool_counter = p.pool_counter }) (out.0) p.saved in
      let fresh = p.fresh in
      let other : text_eq p.identifier k ≡ false = grind (arith, text_eq_iff p.identifier k) in
      load ∙ rw other at
  execute-pool env info (update_config_msg u) s out (same, at) h =
      ap (may_load k) (update_config-pools x info u s out h) ∙ at
  execute-pool env info (provide_liquidity_msg receiver provision) s out (same, at) h =
      let (_, deposits, _) = all_off-cases config.feature_toggle off in
      refused env info (provide_liquidity_msg receiver provision) s (codes "provide_liquidity") out
        (rw (same, deposits) refl) h
  execute-pool env info (swap_msg ask bp m receiver id) s out (same, at) h =
      let (_, _, swaps) = all_off-cases config.feature_toggle off in
      refused env info (swap_msg ask bp m receiver id) s (codes "swap") out (rw (same, swaps) refl)
        h
  execute-pool env info (withdraw_liquidity_msg id) s out (same, at) h =
      let (withdrawals, _, _) = all_off-cases config.feature_toggle off in
      refused env info (withdraw_liquidity_msg id) s (codes "withdraw_liquidity") out
        (rw (same, withdrawals) refl) h
  execute-pool env info (execute_swap_operations_msg os least receiver m) s out (same, at) h =
      let (_, _, swaps) = all_off-cases config.feature_toggle off in
      refused env info (execute_swap_operations_msg os least receiver m) s (codes "swap") out
        (rw (same, swaps) refl) h

  step-IsFrozen :
      (env : Env) (info : MessageInfo) (msg : ExecuteMsg) (s : Storage)
      → x.is_owner info.sender ≡ false
      → IsFrozen k pool config s
      → IsFrozen k pool config (after_execute x (env, info, msg) s)
  unfolding IsFrozen
  step-IsFrozen env info msg s stranger (same, at) =
      elim (Result-cases (execute x env info msg s)) [
        | inl (out, e) ↦
            rw (e, after_execute)
              (
                execute-config x env info msg s out stranger e ∙ same,
                execute-pool env info msg s out (same, at) e,
              )
        | inr (problem, e) ↦ rw (e, after_execute) (same, at)
      ]

  after_executes-IsFrozen :
      (ts : List (Env × MessageInfo × ExecuteMsg)) (s : Storage)
      → all (λ t. not (x.is_owner t.1.sender)) ts ≡ true
      → IsFrozen k pool config s
      → IsFrozen k pool config (after_executes x ts s)
  unfolding after_executes
  after_executes-IsFrozen [] s strangers frozen = frozen
  after_executes-IsFrozen ((env, info, msg) ∷ ts) s strangers frozen =
      let stranger : x.is_owner info.sender ≡ false = ground arith in
      let rest : all (λ t. not (x.is_owner t.1.sender)) ts ≡ true = ground arith in
      after_executes-IsFrozen ts (after_execute x (env, info, msg) s) rest
        (step-IsFrozen env info msg s stranger frozen)

-- While withdrawals, deposits and swaps are all switched off, no messages of senders other
-- than the owner, in any number and order, change a stored pool or the configuration.
pub after_executes-frozen :
    (x : External) (ts : List (Env × MessageInfo × ExecuteMsg)) (s : Storage) (k : Text)
    (pool : PoolInfo)
    → all_off s.config.feature_toggle ≡ true
    → all (λ t. not (x.is_owner t.1.sender)) ts ≡ true
    → may_load k s.pools ≡ some pool
    → (may_load k (after_executes x ts s).pools ≡ some pool)
      × ((after_executes x ts s).config ≡ s.config)
unfolding IsFrozen
after_executes-frozen x ts s k pool off strangers at =
    let (same, kept) = after_executes-IsFrozen x k pool s.config off ts s strangers (refl, at) in
    (kept, same)
