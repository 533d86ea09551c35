-- ===== src/Pool/Covered.antt =====
-- Every message of the pool manager leaves its books covered (execute of
-- pool-manager/src/contract.rs).
pub mod Swaps
pub mod Routes
pub mod Liquidity
pub mod Fees
pub mod Pools
pub mod Deposits
pub mod Execute
