-- ===== src/Pool/Kept.antt =====
-- The pools that the contract's messages can make (pool-manager/src).
pub mod Pools
pub mod Messages
pub mod Run
pub mod Terms
