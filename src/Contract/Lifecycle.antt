-- ===== src/Contract/Lifecycle.antt =====
-- `CreateFromProposal`, `ActivateContract` and `RaiseDispute` of
-- services/contract/internal/service/service.go: what each does to the tables when it succeeds.
pub mod Activate
pub mod Dispute
pub mod Create
