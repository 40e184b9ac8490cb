-- ===== src/Escrow.antt =====
-- The escrow service (services/escrow/internal).
pub mod Tables
pub mod Store
pub mod Service
pub mod Effects
pub mod Inversion
pub mod Rows
pub mod Refine
pub mod Valid
pub mod Ledger
pub mod Once
pub mod Milestones
pub mod Requests
pub mod Promises
mod Tests
