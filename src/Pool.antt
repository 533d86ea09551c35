-- ===== src/Pool.antt =====
-- The pool manager: pool-manager/src.
pub mod Data
pub mod Storage
pub mod Stable
pub mod Deposits
pub mod Compute
pub mod Swaps
pub mod Router
pub mod Slippage
pub mod Liquidity
pub mod Creation
pub mod Contract
pub mod Queries
pub mod Constant
pub mod Reserves
pub mod Performed
pub mod Books
pub mod Covered
pub mod Simulated
pub mod OneSided
pub mod Shares
pub mod Kept
pub mod Guards
pub mod Paused
pub mod Newton
pub mod Roots
pub mod Created
mod Tests
