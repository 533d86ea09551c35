-- ===== src/Pool/Created.antt =====
-- A pool that has been created (create_pool of pool-manager/src/manager/commands.rs).
use stratosphere_contracts.Base.{
  ℕ, ◌≡◌, sym, ap, ◌∙◌, false, Option, some, List, is_some, ok, if◌then◌else◌, ok-injective,
}
use stratosphere_contracts.Base.Text.{Text, text_eq}
use stratosphere_contracts.Base.Coins.{MessageInfo}
use stratosphere_contracts.Base.Dict.{may_load}
use stratosphere_contracts.Pool.Data.{PoolFee, PoolType, Message, Env, External}
use stratosphere_contracts.Pool.Storage.{Storage}
use stratosphere_contracts.Pool.Creation.{create_pool, identify}
use stratosphere_contracts.Pool.Books.{save_pool-load}
use stratosphere_contracts.Pool.Covered.Pools.{new_pool, create_pool-IsCreated}

-- A pool is created under an identifier that no pool had, with the given denoms, decimals,
-- fees and type and no balances, and every other pool stays as it was.
pub create_pool-new :
    (x : External) (env : Env) (info : MessageInfo) (asset_denoms : List Text)
    (asset_decimals : List ℕ) (pool_fees : PoolFee) (pool_type : PoolType) (chosen : Option Text)
    (s s' : Storage) (ms : List Message) (identifier : Text) (counter : ℕ) (other : Text)
    → create_pool x env info asset_denoms asset_decimals pool_fees pool_type chosen s ≡ ok (s', ms)
    → identify chosen s.pool_counter ≡ ok (identifier, counter)
    → (is_some (may_load identifier s.pools) ≡ false)
      × (may_load other s'.pools ≡ (
          if text_eq identifier other
          then some (new_pool x env identifier asset_denoms asset_decimals pool_fees pool_type)
          else may_load other s.pools))
create_pool-new x env info denoms decimals fees kind chosen s s' ms identifier counter other h e =
    let p = create_pool-IsCreated x env info denoms decimals fees kind chosen s (s', ms) h in
    let same : p.identifier ≡ identifier = ap (λ o. o.0) (ok-injective (sym p.identified ∙ e)) in
    rw (sym same) (
      p.fresh,
      save_pool-load p.identifier other (new_pool x env p.identifier denoms decimals fees kind)
          (record s { pool_counter = p.pool_counter }) s' p.saved,
    )
