-- ===== src/Farm/Tests.antt =====
-- The farm manager at concrete inputs: a world, and sequences of messages.
pub mod World
mod Solvency
mod Commands
mod Weights
