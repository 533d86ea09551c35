-- ===== src/Pool/Kept/Terms.antt =====
-- The terms of a pool: its denoms, decimals, LP denom, type and fees (pool-manager/src).
use stratosphere_contracts.Base.{
  ℕ, ◌≡◌, refl, ap, sym, subst, ◌∙◌, Option, some, List, false, Bool-cases, inl, inr, ok, arith,
  some-injective,
}
use stratosphere_contracts.Base.Text.{Text, text_eq, text_eq_iff}
use stratosphere_contracts.Base.Coins.{Coin, MessageInfo}
use stratosphere_contracts.Base.Dict.{may_load}
use stratosphere_contracts.Pool.Data.{PoolInfo, PoolFee, PoolType, Message, Env, External}
use stratosphere_contracts.Pool.Storage.{Storage, save_pool}
use stratosphere_contracts.Pool.Contract.{ExecuteMsg}
use stratosphere_contracts.Pool.Books.{save_pool-load}
use stratosphere_contracts.Pool.Covered.Pools.{IsCreated, new_pool}
use stratosphere_contracts.Pool.Shares.Roundtrip.{denoms_of}
use stratosphere_contracts.Pool.Kept.Messages.{IsPreserved, after_executes, after_executes_keeps}

-- The pool is stored, with other balances perhaps.
unfoldable pub HasTerms : Text → PoolInfo → Storage → Type 0
HasTerms k pool s =
    (assets : List Coin) × (denoms_of assets ≡ denoms_of pool.assets)
    × (may_load k s.pools ≡ some (record pool { assets = assets }))

saved_here :
    (k : Text) (pool q : PoolInfo) (assets old : List Coin) (s' : Storage)
    → q ≡ record pool { assets = old }
    → denoms_of old ≡ denoms_of pool.assets
    → denoms_of assets ≡ denoms_of q.assets
    → may_load k s'.pools ≡ some (record q { assets = assets })
    → HasTerms k pool s'
unfolding HasTerms
saved_here k pool q assets old s' same before after load = (
  assets,
  after ∙ ap (λ (p : PoolInfo). denoms_of p.assets) same ∙ before,
  load ∙ ap (λ (p : PoolInfo). some (record p { assets = assets })) same,
)

elsewhere :
    (k : Text) (pool : PoolInfo) (s s' : Storage)
    → may_load k s'.pools ≡ may_load k s.pools
    → HasTerms k pool s
    → HasTerms k pool s'
unfolding HasTerms
elsewhere k pool s s' same (assets, denoms, at) = (assets, denoms, same ∙ at)

module _ (k : Text) (pool : PoolInfo) where
  resaved-HasTerms :
      (j : Text) (q : PoolInfo) (assets : List Coin) (s s' : Storage)
      → HasTerms k pool s
      → may_load j s.pools ≡ some q
      → denoms_of assets ≡ denoms_of q.assets
      → save_pool j (record q { assets = assets }) s ≡ ok s'
      → HasTerms k pool s'
  unfolding HasTerms
  resaved-HasTerms j q assets s s' (old, denoms, at) q_at same saved =
      let load = save_pool-load j k (record q { assets = assets }) s s' saved in
      elim (Bool-cases (text_eq j k)) [
        | inl here ↦
            let q_at' : may_load k s.pools ≡ some q =
              subst (λ i. may_load i s.pools ≡ some q) ((text_eq_iff j k).0 here) q_at in
            saved_here k pool q assets old s' (some-injective (sym q_at' ∙ at)) denoms same
              (load ∙ rw here refl)
        | inr there ↦ elsewhere k pool s s' (load ∙ rw there refl) (old, denoms, at)
      ]

  created-HasTerms :
      (x : External) (env : Env) (info : MessageInfo) (asset_denoms : List Text)
      (asset_decimals : List ℕ) (pool_fees : PoolFee) (pool_type : PoolType) (chosen : Option Text)
      (s : Storage) (out : Storage × List Message)
      → HasTerms k pool s
      → IsCreated x env info asset_denoms asset_decimals pool_fees pool_type chosen s out
      → HasTerms k pool (out.0)
  unfolding HasTerms
  created-HasTerms x env info denoms decimals fees kind chosen s out (old, same, at) p =
      let load =
        save_pool-load p.identifier k (new_pool x env p.identifier denoms decimals fees kind)
          (record s { pool_counter = p.pool_counter }) (out.0) p.saved in
      let fresh = p.fresh in
      let other : text_eq p.identifier k ≡ false = grind (arith, text_eq_iff p.identifier k) in
      elsewhere k pool s (out.0) (load ∙ rw other refl) (old, same, at)

  HasTerms-IsPreserved : (x : External) → IsPreserved (HasTerms k pool) x
  HasTerms-IsPreserved x = record {
    resaved = resaved-HasTerms;
    created = created-HasTerms x;
    same_pools = λ s s' same kept. elsewhere k pool s s' (ap (may_load k) same) kept;
  }

stored-HasTerms :
    (k : Text) (pool : PoolInfo) (s : Storage) → may_load k s.pools ≡ some pool → HasTerms k pool s
unfolding HasTerms
stored-HasTerms k pool s at = (pool.assets, refl, at)

-- After any messages to the pool manager, refused ones among them, a stored pool is still
-- stored under its identifier, with the same denoms, decimals, LP denom, type and fees: only
-- its balances may differ.
pub after_executes-HasTerms :
    (x : External) (ts : List (Env × MessageInfo × ExecuteMsg)) (s : Storage) (k : Text)
    (pool : PoolInfo)
    → may_load k s.pools ≡ some pool
    → HasTerms k pool (after_executes x ts s)
after_executes-HasTerms x ts s k pool at =
    after_executes_keeps (HasTerms k pool) x (HasTerms-IsPreserved k pool x) ts s
      (stored-HasTerms k pool s at)
