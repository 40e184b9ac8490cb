-- ===== src/Proposal.antt =====
-- The proposal service (services/proposal/internal).
pub mod Tables
pub mod Store
pub mod Service
pub mod Changes
pub mod Requests
pub mod Once
pub mod Contracts
mod Tests
