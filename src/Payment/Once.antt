-- ===== src/Payment/Once.antt =====
-- What the payment service does once, however often it is asked.
pub mod Webhook
pub mod Confirm
pub mod Intent
