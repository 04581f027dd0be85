-- ===== src/Rage.antt =====
-- The RAGE wire layer, crates/baston-protocol/src/rage.
pub mod Buffer
mod Tests
mod PacketTests
mod WorldTests
pub mod Slots
pub mod WorldGrid
pub mod ObjectIds
pub mod Reliability
pub mod Clone
pub mod Packet
pub mod SyncTrees
pub mod SyncWrite
pub mod SyncParse
