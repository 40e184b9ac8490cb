-- ===== src/Escrow/Tables.antt =====
-- The rows that services/escrow/internal/store/store.go reads and writes. Timestamps are left out:
-- rows stand in the order in which they were created, which is all that the code reads of them.
use aizorix_freelancer.Base.{String, Bool, true, false, Option, List, ◌&&◌}
use aizorix_freelancer.Base.Int.{ℤ, pos, leb_ℤ}
use aizorix_freelancer.Base.Outbox.{Event}

pub data EscrowStatus : Type 0 where
  held partially_released released refunded : EscrowStatus

pub record Escrow : Type 0 where
  pub id : String
  pub contract_id : String
  pub currency : String
  pub held_cents : ℤ
  pub released_cents : ℤ
  pub refunded_cents : ℤ
  pub status : EscrowStatus

pub data AllocationStatus : Type 0 where
  reserved released refunded : AllocationStatus

-- `reserved` is the text 'held' of an allocation.
pub record Allocation : Type 0 where
  pub id : String
  pub escrow_id : String
  pub milestone_id : Option String
  pub billing_week : Option String
  pub amount_cents : ℤ
  pub status : AllocationStatus

pub data TxnType : Type 0 where
  escrow_hold escrow_release refund : TxnType

pub data AccountKind : Type 0 where
  escrow escrow_contract freelancer_balance refunds : AccountKind

pub record Leg : Type 0 where
  pub txn_type : TxnType
  pub account_kind : AccountKind
  pub account_ref : Option String
  pub contract_id : Option String
  pub amount_cents : ℤ
  pub currency : String
  pub memo : Option String

-- A row of `transactions`.
pub record Posting : Type 0 where
  pub txn_group : String
  pub leg : Leg

-- A row of `escrow_fund_idempotency`.
pub record FundKey : Type 0 where
  pub contract_id : String
  pub idempotency_key : String
  pub escrow_id : String

pub record Db : Type 0 where
  pub accounts : List Escrow
  pub allocations : List Allocation
  pub fund_keys : List FundKey
  pub transactions : List Posting
  pub outbox : List Event

-- `constraint_violation` is any error of the database that the code passes up as it is;
-- `tx_aborted` is its answer to a statement after a failed one in the same transaction.
pub data Error : Type 0 where
  not_found insufficient_funds duplicate_allocation duplicate_fund : Error
  bad_amount unbalanced constraint_violation tx_aborted : Error

-- The greatest BIGINT.
abbrev pub max_bigint : ℤ
max_bigint = pos 9223372036854775807

abbrev pub is_balance : ℤ → Bool
is_balance c = leb_ℤ (pos 0) c && leb_ℤ c max_bigint

-- The columns are BIGINT with `CHECK (... >= 0)`.
abbrev pub has_valid_balances : Escrow → Bool
has_valid_balances e =
    is_balance e.held_cents && (is_balance e.released_cents && is_balance e.refunded_cents)

abbrev pub is_reserved : AllocationStatus → Bool
is_reserved AllocationStatus.reserved = true
is_reserved AllocationStatus.released = false
is_reserved AllocationStatus.refunded = false

-- `status <> 'refunded'`
abbrev pub is_active : AllocationStatus → Bool
is_active AllocationStatus.reserved = true
is_active AllocationStatus.released = true
is_active AllocationStatus.refunded = false
