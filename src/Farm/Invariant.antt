-- ===== src/Farm/Invariant.antt =====
-- Every message keeps the invariant of the maps (farm-manager/src).
pub mod Positions
pub mod Farms
