-- ===== src/Zone.antt =====
-- The zones, crates/baston-zone/src.
pub mod Bucket
pub mod Handoff
mod Tests
mod HandoffTests
