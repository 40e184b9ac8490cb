-- ===== src/Escrow/Effects.antt =====
-- The changes that the methods of the escrow service make to its tables.
use aizorix_freelancer.Base.{String, true, Option, none, some, List, [], ◌∷◌, ◌++◌, ◌≡◌}
use aizorix_freelancer.Base.Int.{ℤ, pos, ◌+ℤ◌, ◌≤ℤ◌, ◌<ℤ◌}
use aizorix_freelancer.Base.Outbox.{Event}
use aizorix_freelancer.Base.Table.{find, update, sum_by}
use aizorix_freelancer.Escrow.Tables.{
  Escrow, EscrowStatus, Allocation, AllocationStatus, TxnType, AccountKind, Leg, FundKey, Db,
  has_valid_balances,
}
use aizorix_freelancer.Escrow.Store.{
  has_id, has_contract, is_fund_key, is_reserved_row, collides, reserved_for, set_released,
  plus_held, held_to_released, held_to_refunded, postings,
}
use aizorix_freelancer.Escrow.Service.{hold_legs, payment_legs}

-- An account changes by `f`, with the ledger legs and the event that go with it.
abbrev pub moved : String → (Escrow → Escrow) → String → List Leg → Event → Db → Db
moved id f group legs ev db = record db {
  accounts = update (has_id id) f db.accounts;
  transactions = db.transactions ++ postings group legs;
  outbox = db.outbox ++ ev ∷ [];
}

abbrev pub reserved_sum : String → Db → ℤ
reserved_sum id db = sum_by (reserved_for id) db.allocations

abbrev pub IsEmptyAccount : Escrow → Type 0
IsEmptyAccount e = (e.held_cents ≡ pos 0) × (e.released_cents ≡ pos 0) × (e.refunded_cents ≡ pos 0)

pub data Effect (db : Db) : Db → Type 0 where
  opened :
      (e : Escrow)
      → find (has_contract e.contract_id) db.accounts ≡ none
      → find (has_id e.id) db.accounts ≡ none
      → IsEmptyAccount e
      → Effect db (record db { accounts = db.accounts ++ e ∷ [] })
  claimed :
      (k : FundKey)
      → find (is_fund_key k.contract_id k.idempotency_key) db.fund_keys ≡ none
      → Effect db (record db { fund_keys = db.fund_keys ++ k ∷ [] })
  deposited :
      (id group contract_id : String) (amount : ℤ) (e : Escrow) (ev : Event)
      → find (has_id id) db.accounts ≡ some e
      → pos 0 <ℤ amount
      → has_valid_balances (plus_held amount e) ≡ true
      → Effect db (
          moved id
            (plus_held amount)
            group
            (hold_legs (plus_held amount e) contract_id amount)
            ev
            db)
  allocated :
      (e : Escrow) (a : Allocation)
      → find (has_id a.escrow_id) db.accounts ≡ some e
      → pos 0 <ℤ a.amount_cents
      → reserved_sum a.escrow_id db +ℤ a.amount_cents ≤ℤ e.held_cents
      → find (collides a) db.allocations ≡ none
      → a.status ≡ AllocationStatus.reserved
      → Effect db (record db { allocations = db.allocations ++ a ∷ [] })
  paid :
      (group : String) (e e' : Escrow) (a : Allocation) (status : EscrowStatus) (ev : Event)
      → find (has_id a.escrow_id) db.accounts ≡ some e
      → find (is_reserved_row a.id) db.allocations ≡ some a
      → has_valid_balances (held_to_released a.amount_cents status e) ≡ true
      → e' ≡ held_to_released a.amount_cents status e
      → Effect db (
          moved a.escrow_id
            (held_to_released a.amount_cents status)
            group
            (payment_legs TxnType.escrow_release AccountKind.freelancer_balance e' a.amount_cents
              none)
            ev
            (record db { allocations = update (is_reserved_row a.id) set_released db.allocations }))
  returned :
      (id group : String) (amount : ℤ) (e : Escrow) (status : EscrowStatus) (memo : Option String)
      (ev : Event)
      → find (has_id id) db.accounts ≡ some e
      → pos 0 <ℤ amount
      → reserved_sum id db +ℤ amount ≤ℤ e.held_cents
      → has_valid_balances (held_to_refunded amount status e) ≡ true
      → Effect db (
          moved id
            (held_to_refunded amount status)
            group
            (payment_legs TxnType.refund AccountKind.refunds
              (held_to_refunded amount status e)
              amount
              memo)
            ev
            db)

-- Changes one after another.
pub data Effects (db : Db) : Db → Type 0 where
  unchanged : Effects db db
  step : {d d' : Db} → Effects db d → Effect d d' → Effects db d'
