-- ===== src/Pool/Shares.antt =====
-- What LP tokens are worth: withdrawals and deposits (pool-manager/src/liquidity/commands.rs).
pub mod Refunds
pub mod Minting
pub mod Roundtrip
