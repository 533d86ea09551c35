-- ===== src/Pool/Tests.antt =====
-- Runs of the pool manager on concrete input (pool-manager/src).
mod World
mod Trades
mod Holdings
