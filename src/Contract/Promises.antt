-- ===== src/Contract/Promises.antt =====
-- What the methods of services/contract/internal/service/service.go promise their callers: who may
-- make each change, and where the terms of a contract come from.
pub mod Approval
pub mod Proposals
pub mod Sums
pub mod Disputes
pub mod Views
