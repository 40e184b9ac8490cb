-- ===== src/Auth/Store.antt =====
-- The queries of services/auth/internal/store/store.go.
pub mod Accounts
pub mod Sessions
