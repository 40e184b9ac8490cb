-- ===== src/Escrow/Promises.antt =====
-- What the escrow service promises its callers: each movement happens at most once, a reserved
-- amount can be paid, and reserved amounts are out of reach of refunds.
pub mod ReleaseOnce
pub mod FundOnce
pub mod WeekOnce
pub mod Guards
