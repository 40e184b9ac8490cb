-- ===== src/Escrow/Service.antt =====
-- The methods of services/escrow/internal/service/service.go. Each takes the ids that it draws, the
-- group of its ledger legs first, then the request, then the tables.
use aizorix_freelancer.Base.{String, Option, none, some, List, [], ◌∷◌, ◌++◌, ◌==◌, if◌then◌else◌}
use aizorix_freelancer.Base.Int.{ℤ, pos, ◌-ℤ◌, leb_ℤ, ltb_ℤ, eqb_ℤ}
use aizorix_freelancer.Base.Outbox.{Event, Value, text, cents}
use aizorix_freelancer.Base.Tx.{
  Result, ok, err, Tx, pure, fail, fail_if, attempt, ◌>>=◌, ◌>>◌, transact,
}
use aizorix_freelancer.Escrow.Tables.{
  Escrow, EscrowStatus, Allocation, TxnType, AccountKind, Leg, Db, Error, not_found,
  insufficient_funds, duplicate_allocation, duplicate_fund, bad_amount, tx_aborted,
}
use aizorix_freelancer.Escrow.Store.{
  get_escrow, lock_escrow, upsert_escrow_for_contract, record_fund_idempotency, add_held,
  move_held_to_released, move_held_to_refunded, insert_allocation, held_allocation_by_milestone,
  allocation_by_milestone, allocation_by_billing_week, mark_allocation_released,
  sum_held_allocations, write_legs, enqueue,
}

-- The two legs of a movement: a debit, then a credit.
abbrev pub hold_legs : Escrow → String → ℤ → List Leg
hold_legs e contract_id amount =
    record {
      txn_type = TxnType.escrow_hold;
      account_kind = AccountKind.escrow;
      account_ref = none;
      contract_id = none;
      amount_cents = pos 0 -ℤ amount;
      currency = e.currency;
      memo = none;
    }
    ∷ record {
      txn_type = TxnType.escrow_hold;
      account_kind = AccountKind.escrow_contract;
      account_ref = some e.id;
      contract_id = some contract_id;
      amount_cents = amount;
      currency = e.currency;
      memo = none;
    }
    ∷ []

abbrev pub payment_legs : TxnType → AccountKind → Escrow → ℤ → Option String → List Leg
payment_legs type kind e amount memo =
    record {
      txn_type = type;
      account_kind = AccountKind.escrow;
      account_ref = some e.id;
      contract_id = some e.contract_id;
      amount_cents = pos 0 -ℤ amount;
      currency = e.currency;
      memo = memo;
    }
    ∷ record {
      txn_type = type;
      account_kind = kind;
      account_ref = none;
      contract_id = some e.contract_id;
      amount_cents = amount;
      currency = e.currency;
      memo = memo;
    }
    ∷ []

-- The events on `escrow.events`, keyed by the contract.
abbrev pub escrow_event : String → String → String → List (String × Value) → Event
escrow_event event_type id contract_id payload = record {
  aggregate_type = "escrow";
  aggregate_id = id;
  event_type = event_type;
  topic = "escrow.events";
  partition_key = contract_id;
  payload = payload;
}

abbrev pub funded_event : Escrow → String → ℤ → Event
funded_event e contract_id amount = escrow_event "escrow.funded" e.id contract_id (
    ("escrow_id", text e.id)
    ∷ ("contract_id", text contract_id)
    ∷ ("amount_cents", cents amount)
    ∷ ("held_cents", cents e.held_cents)
    ∷ [])

abbrev optional : String → Option String → List (String × Value)
optional name none = []
optional name (some v) = (name, text v) ∷ []

abbrev pub released_event : Escrow → Option String → Option String → ℤ → Event
released_event e milestone_id billing_week amount =
    escrow_event "escrow.released" e.id e.contract_id (
      (("escrow_id", text e.id)
        ∷ ("contract_id", text e.contract_id)
        ∷ ("amount_cents", cents amount)
        ∷ [])
      ++ (optional "milestone_id" milestone_id ++ optional "billing_week" billing_week))

abbrev pub refunded_event : Escrow → ℤ → String → Event
refunded_event e amount reason = escrow_event "escrow.refunded" e.id e.contract_id (
    ("escrow_id", text e.id)
    ∷ ("contract_id", text e.contract_id)
    ∷ ("amount_cents", cents amount)
    ∷ ("reason", text reason)
    ∷ [])

unfoldable pub emit_released : Escrow → Option String → Option String → ℤ → Tx Db Error (Unit {0})
unfolding enqueue
emit_released e milestone_id billing_week amount =
    enqueue (released_event e milestone_id billing_week amount)

unfoldable pub status_after_release : ℤ → EscrowStatus
status_after_release remaining =
    if leb_ℤ remaining (pos 0) then EscrowStatus.released else EscrowStatus.partially_released

-- How the transaction of `FundEscrow` ends: it is committed, or a replayed key rolls it back and
-- the account of that id is read again.
pub data Funding : Type 0 where
  credited : Escrow → Funding
  replayed : String → Funding

unfoldable pub credit : String → String → ℤ → Escrow → Tx Db Error Funding
unfolding add_held write_legs enqueue
credit group contract_id amount e = do
  e' ← add_held e.id amount
  write_legs group (hold_legs e' contract_id amount)
  enqueue (funded_event e' contract_id amount)
  pure (credited e')

unfoldable pub fund_tx : String → String → String → ℤ → String → String → Tx Db Error Funding
unfolding upsert_escrow_for_contract lock_escrow record_fund_idempotency credit
fund_tx group new_id contract_id amount currency key = do
  e ← upsert_escrow_for_contract new_id contract_id (if currency == "" then "USD" else currency)
  lock_escrow e.id
  claimed ←
      if key == "" then pure (ok tt) else attempt (record_fund_idempotency contract_id key e.id)
  elim claimed [
    | ok _ ↦ credit group contract_id amount e
    | err x ↦ elim x [ duplicate_fund ↦ pure (replayed e.id) | other ↦ fail other ]
  ]

abbrev pub end_funding : Result Error (Funding × Db) → Db → Result Error Escrow × Db
end_funding (ok (credited e, db')) db = (ok e, db')
end_funding (ok (replayed id, db')) db = transact (get_escrow id) db
end_funding (err x) db = (err x, db)

unfoldable pub fund_escrow :
    String → String → String → ℤ → String → String → Db → Result Error Escrow × Db
unfolding fund_tx get_escrow
fund_escrow group new_id contract_id amount currency key db =
    if leb_ℤ amount (pos 0)
    then (err bad_amount, db)
    else end_funding (fund_tx group new_id contract_id amount currency key db) db

-- After a lost race the database refuses the read back, and in `ReleaseHours` the commit.
abbrev pub lost_race : {A : Type 0} → Tx Db Error A
lost_race = fail tx_aborted

unfoldable pub reserve : String → String → String → ℤ → Escrow → Tx Db Error Allocation
unfolding sum_held_allocations insert_allocation
reserve new_id escrow_id milestone_id amount e = do
  allocated ← sum_held_allocations escrow_id
  fail_if (ltb_ℤ (e.held_cents -ℤ allocated) amount) insufficient_funds
  inserted ← attempt (insert_allocation new_id escrow_id (some milestone_id) none amount)
  elim inserted [
    | ok a ↦ pure a
    | err x ↦ elim x [ duplicate_allocation ↦ lost_race | other ↦ fail other ]
  ]

unfoldable pub allocate_to_milestone : String → String → String → ℤ → Tx Db Error Allocation
unfolding lock_escrow allocation_by_milestone reserve
allocate_to_milestone new_id escrow_id milestone_id amount = do
  fail_if (leb_ℤ amount (pos 0)) bad_amount
  e ← lock_escrow escrow_id
  existing ← attempt (allocation_by_milestone escrow_id milestone_id)
  elim existing [
    | ok a ↦ pure a
    | err x ↦ elim x [
      | not_found ↦ reserve new_id escrow_id milestone_id amount e
      | other ↦ fail other
    ]
  ]

-- The end of a release: the money moves, and its legs and event are written.
unfoldable pub pay_out :
    String → String → Option String → Option String → ℤ → ℤ → Tx Db Error Escrow
unfolding move_held_to_released status_after_release write_legs emit_released
pay_out group escrow_id milestone_id billing_week held amount = do
  e ← move_held_to_released escrow_id amount (status_after_release (held -ℤ amount))
  write_legs group
      (payment_legs TxnType.escrow_release AccountKind.freelancer_balance e amount none)
  emit_released e milestone_id billing_week amount
  pure e

unfoldable pub release_milestone : String → String → String → Tx Db Error Escrow
unfolding lock_escrow held_allocation_by_milestone sum_held_allocations mark_allocation_released
    pay_out
release_milestone group escrow_id milestone_id = do
  e ← lock_escrow escrow_id
  alloc ← held_allocation_by_milestone escrow_id milestone_id
  allocated ← sum_held_allocations escrow_id
  fail_if (ltb_ℤ e.held_cents alloc.amount_cents) insufficient_funds
  fail_if (ltb_ℤ e.held_cents allocated) insufficient_funds
  mark_allocation_released alloc.id
  pay_out group escrow_id (some milestone_id) none e.held_cents alloc.amount_cents

unfoldable pub release_week : String → String → String → String → ℤ → Escrow → Tx Db Error Escrow
unfolding sum_held_allocations insert_allocation mark_allocation_released pay_out
release_week group new_id escrow_id billing_week amount e = do
  allocated ← sum_held_allocations escrow_id
  fail_if (ltb_ℤ (e.held_cents -ℤ allocated) amount) insufficient_funds
  inserted ← attempt (insert_allocation new_id escrow_id none (some billing_week) amount)
  elim inserted [
    | ok a ↦ do
      mark_allocation_released a.id
      pay_out group escrow_id none (some billing_week) e.held_cents amount
    | err x ↦ elim x [ duplicate_allocation ↦ lost_race | other ↦ fail other ]
  ]

unfoldable pub release_hours : String → String → String → String → ℤ → Tx Db Error Escrow
unfolding lock_escrow allocation_by_billing_week release_week
release_hours group new_id escrow_id billing_week amount = do
  fail_if (leb_ℤ amount (pos 0)) bad_amount
  e ← lock_escrow escrow_id
  existing ← attempt (allocation_by_billing_week escrow_id billing_week)
  elim existing [
    | ok a ↦ pure e
    | err x ↦ elim x [
      | not_found ↦ release_week group new_id escrow_id billing_week amount e
      | other ↦ fail other
    ]
  ]

abbrev pub status_after_refund : ℤ → EscrowStatus
status_after_refund remaining =
    if eqb_ℤ remaining (pos 0) then EscrowStatus.refunded else EscrowStatus.held

unfoldable pub refund_escrow : String → String → ℤ → String → Tx Db Error Escrow
unfolding lock_escrow sum_held_allocations move_held_to_refunded write_legs enqueue
refund_escrow group escrow_id amount reason = do
  fail_if (leb_ℤ amount (pos 0)) bad_amount
  e ← lock_escrow escrow_id
  allocated ← sum_held_allocations escrow_id
  fail_if (ltb_ℤ (e.held_cents -ℤ allocated) amount) insufficient_funds
  e' ← move_held_to_refunded escrow_id amount (status_after_refund (e.held_cents -ℤ amount))
  write_legs group (
      payment_legs TxnType.refund AccountKind.refunds e' amount
        (if reason == "" then none else some reason))
  enqueue (refunded_event e' amount reason)
  pure e'
