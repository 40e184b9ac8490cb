-- ===== src/Auth.antt =====
-- The auth service (services/auth/internal).
pub mod Tables
pub mod Store
pub mod Service
pub mod Changes
pub mod Issue
pub mod Rotate
pub mod Refresh
pub mod Logout
pub mod Requests
pub mod Rotation
pub mod Chains
pub mod Promises
pub mod Lockout
mod Tests
