-- ===== src/Pool/Covered/Execute.antt =====
-- Every message of the pool manager (execute of pool-manager/src/contract.rs).
use stratosphere_contracts.Base.{◌+◌, ◌≡◌, List, arith, ok, Bool, true}
use stratosphere_contracts.Base.Text.{Text}
use stratosphere_contracts.Base.Coins.{Coin, MessageInfo}
use stratosphere_contracts.Pool.Data.{Message, Env, External}
use stratosphere_contracts.Pool.Storage.{Storage}
use stratosphere_contracts.Pool.Contract.{
  ExecuteMsg, ConfigUpdate, execute, update_config, create_pool_msg, provide_liquidity_msg,
  swap_msg, withdraw_liquidity_msg, execute_swap_operations_msg, update_config_msg,
}
use stratosphere_contracts.Pool.Books.{Lawful, held, paid, PoolsCovered, factory_charge}
use stratosphere_contracts.Pool.Covered.Swaps.{swap-held}
use stratosphere_contracts.Pool.Covered.Routes.{execute_swap_operations-held}
use stratosphere_contracts.Pool.Covered.Liquidity.{withdraw_liquidity-held}
use stratosphere_contracts.Pool.Covered.Deposits.{provide_liquidity-PoolsCovered}
use stratosphere_contracts.Pool.Covered.Pools.{create_pool-held}
use stratosphere_contracts.Pool.Covered.Fees.{PaidApart, paid_apart}

update_config-held :
    (x : External) (info : MessageInfo) (u : ConfigUpdate) (s s' : Storage) (ms : List Message)
    (charge : List Coin) (d : Text)
    → update_config x info u s ≡ ok (s', ms)
    → held d s' + paid charge d ms ≡ held d s
unfolding update_config held paid
update_config-held x info u s s' ms charge d h = grind arith

-- Where a pool is created, the token factory's fee and the pool creation fee are paid apart.
unfoldable pub fees_apart : ExecuteMsg → Coin → List Coin → Bool
fees_apart (create_pool_msg denoms decimals fees kind chosen) fee charge = paid_apart fee charge
fees_apart _ fee charge = true

-- With lawful libraries, after a successful message of any kind to the pool manager, what
-- its pools hold of a denom together with what the messages pay out, the token factory's fee
-- for a new denom included, is at most what the pools held, the funds of the message and the
-- LP tokens minted to the contract. Where the message creates a pool, the token factory asks
-- for one coin, or for coins of different denoms, none of them the pool creation fee's.
pub execute-PoolsCovered :
    (x : External) (law : Lawful x) (env : Env) (info : MessageInfo) (msg : ExecuteMsg)
    (s s' : Storage) (ms : List Message) (d : Text)
    → fees_apart msg s.config.pool_creation_fee (factory_charge env) ≡ true
    → execute x env info msg s ≡ ok (s', ms)
    → PoolsCovered env d s info.funds (s', ms)
unfolding execute PoolsCovered fees_apart PaidApart
execute-PoolsCovered x law env info (create_pool_msg denoms decimals fees kind chosen) s s' ms d
      apart h =
    omega
      (arith, create_pool-held x law env info denoms decimals fees kind chosen s s' ms d apart h)
execute-PoolsCovered x law env info (provide_liquidity_msg receiver provision) s s' ms d apart h =
    omega (arith, provide_liquidity-PoolsCovered x law env info receiver provision s s' ms d h)
execute-PoolsCovered x law env info (swap_msg ask bp m receiver id) s s' ms d apart h =
    omega (arith, swap-held x law info ask bp m receiver id s s' ms (factory_charge env) d h)
execute-PoolsCovered x law env info (withdraw_liquidity_msg id) s s' ms d apart h =
    omega (arith, withdraw_liquidity-held x law env info id s s' ms (factory_charge env) d h)
execute-PoolsCovered x law env info (execute_swap_operations_msg ops least receiver m) s s' ms d
      apart h =
    omega (
      arith,
      execute_swap_operations-held x law info ops least receiver m s s' ms (factory_charge env) d h,
    )
execute-PoolsCovered x law env info (update_config_msg u) s s' ms d apart h =
    omega (arith, update_config-held x info u s s' ms (factory_charge env) d h)
