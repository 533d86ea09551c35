-- ===== src/Farm/Solvency.antt =====
-- The farm manager's books: what it owes, by denom, for positions and for farms
-- (the state of farm-manager/src/state.rs), against what it receives and sends.
pub mod Books
pub mod Positions
pub mod Withdrawals
pub mod Accrual
pub mod Claims
pub mod Closing
pub mod Filling
pub mod Run
pub mod Ledger
