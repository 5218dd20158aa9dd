-- ===== src/Tests.antt =====
-- Runs of the model on concrete data, and the theorems at concrete inputs.
pub mod Data
pub mod Reviews
pub mod Syncs
pub mod Exports
pub mod Intervals
pub mod Writes
pub mod Ranges
pub mod Templates
pub mod Brokers
