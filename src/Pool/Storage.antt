-- ===== src/Pool/Storage.antt =====
-- The storage of pool-manager/src/state.rs.
use stratosphere_contracts.Base.{ℕ, ◌&&◌, not, Option, any, Result, ok, err, ok_or, if◌then◌else◌}
use stratosphere_contracts.Base.Text.{Text, text_eq}
use stratosphere_contracts.Base.Dict.{Dict, may_load, save}
use stratosphere_contracts.Pool.Data.{
  ContractError, Config, PoolInfo, SingleSideLiquidityProvisionBuffer, std_error, un_existing_pool,
}

pub record Storage : Type 0 where
  pub config : Config
  pub pool_counter : ℕ
  pub pools : Dict PoolInfo
  pub single_side_liquidity_provision_buffer : Option SingleSideLiquidityProvisionBuffer

unfoldable pub get_pool_by_identifier : Storage → Text → Result ContractError PoolInfo
get_pool_by_identifier s pool_identifier = ok_or (may_load pool_identifier s.pools) un_existing_pool

-- `POOLS.save`: the unique index `lp_asset` refuses the LP denom of another pool.
unfoldable pub save_pool : Text → PoolInfo → Storage → Result ContractError Storage
save_pool pool_identifier pool s =
    if any (λ e. not (text_eq e.0 pool_identifier) && text_eq e.1.lp_denom pool.lp_denom) s.pools
    then err std_error
    else ok (record s { pools = save pool_identifier pool s.pools })
