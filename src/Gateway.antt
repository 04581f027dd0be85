-- ===== src/Gateway.antt =====
-- The gateway, crates/baston-gateway/src.
pub mod ConnectionRouter
mod Tests
