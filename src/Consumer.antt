-- ===== src/Consumer.antt =====
-- The event consumer (services/pkg/kafka/consumer.go).
pub mod Process
pub mod Deliveries
pub mod Once
pub mod Commit
pub mod Wire
mod Tests
