-- ===== src/Farm.antt =====
-- The farm manager: farm-manager/src.
pub mod Data
pub mod Storage
pub mod Weights
pub mod Rewards
pub mod Positions
pub mod Manager
pub mod Contract
pub mod Keys
pub mod Frame
pub mod Listing
pub mod Invariant
pub mod Solvency
pub mod Settings
pub mod Terms
pub mod Carried
pub mod Repeat
pub mod Tests
