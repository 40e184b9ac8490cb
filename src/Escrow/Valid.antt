-- ===== src/Escrow/Valid.antt =====
-- What holds of the escrow tables between two transactions: the reserved cents of an account are
-- covered by what it holds.
pub mod Covered
pub mod Invariant
