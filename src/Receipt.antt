-- ===== src/Receipt.antt =====
-- receipt.rs, part by part.
pub mod Outcome
pub mod Failure
pub mod Report
pub mod Run
pub mod Ending
pub mod Reduction
pub mod Dominating
pub mod Recorded
pub mod Failing
pub mod Unreached
pub mod Concluded
pub mod Blocking
pub mod Steps
pub mod Invariants
pub mod Unique
pub mod Tolerance
pub mod Fields
pub mod Common
mod Tests
