-- ===== src/Voice.antt =====
-- The voice server, crates/baston-voice/src.
pub mod Pds
pub mod Framing
pub mod Channel
pub mod Session
pub mod Packet
pub mod Router
pub mod Crypto
mod Tests
mod ChannelTests
mod RouterTests
mod PacketTests
