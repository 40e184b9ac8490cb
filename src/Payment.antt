-- ===== src/Payment.antt =====
-- The payment service (services/payment/internal).
pub mod Tables
pub mod Store
pub mod Service
pub mod Changes
pub mod Books
pub mod Requests
pub mod Once
mod Tests
