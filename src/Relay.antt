-- ===== src/Relay.antt =====
-- The relay of the transactional outbox (services/pkg/outbox/outbox.go).
pub mod Outbox
pub mod Drain
pub mod Rows
pub mod Delivery
pub mod Progress
mod Tests
