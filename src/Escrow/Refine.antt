-- ===== src/Escrow/Refine.antt =====
-- The methods of the escrow service make only the changes of its contract.
pub mod Fund
pub mod Allocate
pub mod Release
