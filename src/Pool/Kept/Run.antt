-- ===== src/Pool/Kept/Run.antt =====
-- The pools after any sequence of messages (pool-manager/src/contract.rs).
use stratosphere_contracts.Base.{◌≡◌, sym, subst, List, [], ◌∷◌, arith, ok}
use stratosphere_contracts.Base.Coins.{MessageInfo}
use stratosphere_contracts.Base.Keys.{Entries}
use stratosphere_contracts.Pool.Data.{Env, External}
use stratosphere_contracts.Pool.Storage.{Storage}
use stratosphere_contracts.Pool.Contract.{InstantiateMsg, instantiate, ExecuteMsg}
use stratosphere_contracts.Pool.Kept.Pools.{IsKept, PoolsKept, resaved}
use stratosphere_contracts.Pool.Kept.Messages.{IsPreserved, after_executes, after_executes_keeps}
use stratosphere_contracts.Base.{ℕ, refl, ap, Option, map}
use stratosphere_contracts.Base.Text.{Text}
use stratosphere_contracts.Base.Keys.{Entries-save}
use stratosphere_contracts.Pool.Data.{PoolInfo, PoolFee, PoolType, Message}
use stratosphere_contracts.Pool.Books.{save_pool-pools}
use stratosphere_contracts.Pool.Covered.Pools.{IsCreated, new_pool}
use stratosphere_contracts.Pool.Shares.Roundtrip.{denoms_of}

denoms_of-new : (ds : List Text) → denoms_of (map (λ d. record { denom = d; amount = 0 }) ds) ≡ ds
denoms_of-new [] = refl
denoms_of-new (d ∷ ds) = ap (λ es. d ∷ es) (denoms_of-new ds)

created-PoolsKept :
    (x : External) (env : Env) (info : MessageInfo) (asset_denoms : List Text)
    (asset_decimals : List ℕ) (pool_fees : PoolFee) (pool_type : PoolType)
    (pool_identifier : Option Text) (s : Storage) (out : Storage × List Message)
    → PoolsKept s
    → IsCreated x env info asset_denoms asset_decimals pool_fees pool_type pool_identifier s out
    → PoolsKept (out.0)
unfolding PoolsKept
created-PoolsKept x env info denoms decimals fees kind chosen s out kept p =
    let pool : PoolInfo = new_pool x env p.identifier denoms decimals fees kind in
    rw
      (save_pool-pools p.identifier pool (record s { pool_counter = p.pool_counter }) (out.0)
        p.saved)
      (Entries-save IsKept p.identifier pool s.pools
        record {
          identified = refl;
          in_order = denoms_of-new denoms;
          decimals = p.same_length;
          distinct = p.distinct;
          several = p.several;
          at_most_four = p.at_most_four;
        }
        kept)

same_pools-PoolsKept : (s s' : Storage) → s'.pools ≡ s.pools → PoolsKept s → PoolsKept s'
unfolding PoolsKept
same_pools-PoolsKept s s' h kept = subst (Entries IsKept) (sym h) kept

PoolsKept-IsPreserved : (x : External) → IsPreserved PoolsKept x
PoolsKept-IsPreserved x = record {
  resaved = resaved;
  created = λ env info denoms decimals fees kind chosen s out kept p.
      created-PoolsKept x env info denoms decimals fees kind chosen s out kept p;
  same_pools = same_pools-PoolsKept;
}

no_entries : Unit {0} → Entries IsKept []
unfolding Entries
no_entries u = u

instantiate-pools :
    (x : External) (info : MessageInfo) (msg : InstantiateMsg) (s : Storage)
    → instantiate x info msg ≡ ok s
    → s.pools ≡ []
unfolding instantiate
instantiate-pools x info msg s h = grind arith

instantiate-PoolsKept :
    (x : External) (info : MessageInfo) (msg : InstantiateMsg) (s : Storage)
    → instantiate x info msg ≡ ok s
    → PoolsKept s
unfolding PoolsKept
instantiate-PoolsKept x info msg s h =
    subst (Entries IsKept) (sym (instantiate-pools x info msg s h)) (no_entries tt)

-- From the instantiation on, after any messages to the pool manager, refused ones among
-- them, each pool stands under its own identifier and has two to four different denoms, with
-- an asset and a number of decimals for each, in one order.
pub after_executes-PoolsKept :
    (x : External) (info : MessageInfo) (msg : InstantiateMsg) (s : Storage)
    (ts : List (Env × MessageInfo × ExecuteMsg))
    → instantiate x info msg ≡ ok s
    → PoolsKept (after_executes x ts s)
after_executes-PoolsKept x info msg s ts h =
    after_executes_keeps PoolsKept x (PoolsKept-IsPreserved x) ts s
      (instantiate-PoolsKept x info msg s h)
