-- ===== src/Timetracking.antt =====
-- The time tracking service (services/timetracking/internal).
pub mod Tables
pub mod Store
pub mod Reasons
pub mod Service
pub mod Slices
pub mod Retry
pub mod Billing
pub mod Requests
pub mod Owners
mod Tests
