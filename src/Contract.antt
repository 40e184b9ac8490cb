-- ===== src/Contract.antt =====
-- The contract service (services/contract/internal).
pub mod Tables
pub mod Terms
pub mod Store
pub mod Service
pub mod History
pub mod Milestones
pub mod Refine
pub mod Lifecycle
pub mod Requests
pub mod Promises
mod Tests
