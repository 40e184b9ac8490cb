-- ===== src/Escrow/Store.antt =====
-- The queries of services/escrow/internal/store/store.go, one transaction step each. An id that
-- `gen_random_uuid` or `newUUID` draws is an argument.
use aizorix_freelancer.Base.{
  String, Bool, false, Option, none, some, List, [], ◌∷◌, ◌++◌, ◌&&◌, ◌||◌, not, ◌==◌,
  if◌then◌else◌, is_some,
}
use aizorix_freelancer.Base.Int.{ℤ, pos, ◌+ℤ◌, ◌-ℤ◌, eqb_ℤ, leb_ℤ}
use aizorix_freelancer.Base.Outbox.{Event}
use aizorix_freelancer.Base.Table.{find, update, sum_by}
use aizorix_freelancer.Base.Tx.{Tx, pure, get_db, modify, fail_if, or_fail, ◌>>=◌, ◌>>◌}
use aizorix_freelancer.Escrow.Tables.{
  Escrow, EscrowStatus, Allocation, AllocationStatus, Leg, Posting, FundKey, Db, Error, not_found,
  duplicate_allocation, duplicate_fund, unbalanced, constraint_violation, has_valid_balances,
  is_reserved, is_active,
}

-- The tests of the WHERE clauses.
abbrev pub has_id : String → Escrow → Bool
has_id id e = e.id == id

abbrev pub has_contract : String → Escrow → Bool
has_contract contract_id e = e.contract_id == contract_id

abbrev pub is_text : Option String → String → Bool
is_text none t = false
is_text (some s) t = s == t

abbrev pub is_reserved_milestone : String → String → Allocation → Bool
is_reserved_milestone escrow_id milestone_id a =
    a.escrow_id == escrow_id && (is_text a.milestone_id milestone_id && is_reserved a.status)

abbrev pub is_active_milestone : String → String → Allocation → Bool
is_active_milestone escrow_id milestone_id a =
    a.escrow_id == escrow_id && (is_text a.milestone_id milestone_id && is_active a.status)

abbrev pub is_active_week : String → String → Allocation → Bool
is_active_week escrow_id billing_week a =
    a.escrow_id == escrow_id && (is_text a.billing_week billing_week && is_active a.status)

abbrev pub is_reserved_row : String → Allocation → Bool
is_reserved_row id a = a.id == id && is_reserved a.status

abbrev pub is_fund_key : String → String → FundKey → Bool
is_fund_key contract_id key k = k.contract_id == contract_id && k.idempotency_key == key

-- `GetEscrow`, and `LockEscrow` with the row lock.
unfoldable pub get_escrow : String → Tx Db Error Escrow
get_escrow id = do db ← get_db; or_fail (find (has_id id) db.accounts) not_found

unfoldable pub lock_escrow : String → Tx Db Error Escrow
lock_escrow id = do db ← get_db; or_fail (find (has_id id) db.accounts) not_found

unfoldable pub get_escrow_by_contract : String → Tx Db Error Escrow
get_escrow_by_contract c = do db ← get_db; or_fail (find (has_contract c) db.accounts) not_found

-- `UpsertEscrowForContract`: the contract's account, or a new empty one.
unfoldable pub upsert_escrow_for_contract : String → String → String → Tx Db Error Escrow
upsert_escrow_for_contract new_id contract_id currency =
    let new : Escrow = record {
      id = new_id;
      contract_id = contract_id;
      currency = currency;
      held_cents = pos 0;
      released_cents = pos 0;
      refunded_cents = pos 0;
      status = EscrowStatus.held;
    } in
    do
      db ← get_db
      elim (find (has_contract contract_id) db.accounts) [
        | some e ↦ pure e
        | none ↦ do
          fail_if (is_some (find (has_id new_id) db.accounts)) constraint_violation
          modify (λ d. record d { accounts = d.accounts ++ new ∷ [] })
          pure new
      ]

unfoldable pub record_fund_idempotency : String → String → String → Tx Db Error (Unit {0})
record_fund_idempotency contract_id key escrow_id =
    let row : FundKey = record {
      contract_id = contract_id;
      idempotency_key = key;
      escrow_id = escrow_id;
    } in
    do
      db ← get_db
      fail_if (is_some (find (is_fund_key contract_id key) db.fund_keys)) duplicate_fund
      modify (λ d. record d { fund_keys = d.fund_keys ++ row ∷ [] })

-- `UPDATE escrow_accounts SET ... WHERE id=$1 RETURNING ...`, with the columns' constraints.
unfoldable pub update_escrow : String → (Escrow → Escrow) → Tx Db Error Escrow
update_escrow id f = do
  db ← get_db
  e ← or_fail (find (has_id id) db.accounts) not_found
  fail_if (not (has_valid_balances (f e))) constraint_violation
  modify (λ d. record d { accounts = update (has_id id) f d.accounts })
  pure (f e)

abbrev pub plus_held : ℤ → Escrow → Escrow
plus_held amount e = record e { held_cents = e.held_cents +ℤ amount }

abbrev pub held_to_released : ℤ → EscrowStatus → Escrow → Escrow
held_to_released amount status e = record e {
  held_cents = e.held_cents -ℤ amount;
  released_cents = e.released_cents +ℤ amount;
  status = status;
}

abbrev pub held_to_refunded : ℤ → EscrowStatus → Escrow → Escrow
held_to_refunded amount status e = record e {
  held_cents = e.held_cents -ℤ amount;
  refunded_cents = e.refunded_cents +ℤ amount;
  status = status;
}

unfoldable pub add_held : String → ℤ → Tx Db Error Escrow
unfolding update_escrow
add_held id amount = update_escrow id (plus_held amount)

unfoldable pub move_held_to_released : String → ℤ → EscrowStatus → Tx Db Error Escrow
unfolding update_escrow
move_held_to_released id amount status = update_escrow id (held_to_released amount status)

unfoldable pub move_held_to_refunded : String → ℤ → EscrowStatus → Tx Db Error Escrow
unfolding update_escrow
move_held_to_refunded id amount status = update_escrow id (held_to_refunded amount status)

-- The rows that the two partial unique indexes and the primary key refuse beside a new one.
abbrev pub collides : Allocation → Allocation → Bool
collides new a =
    a.id == new.id
    || (elim new.milestone_id [ none ↦ false | some m ↦ is_active_milestone new.escrow_id m a ]
        || elim new.billing_week [ none ↦ false | some w ↦ is_active_week new.escrow_id w a ])

abbrev pub new_allocation : String → String → Option String → Option String → ℤ → Allocation
new_allocation new_id escrow_id milestone_id billing_week amount = record {
  id = new_id;
  escrow_id = escrow_id;
  milestone_id = milestone_id;
  billing_week = billing_week;
  amount_cents = amount;
  status = AllocationStatus.reserved;
}

unfoldable pub insert_allocation :
    String → String → Option String → Option String → ℤ → Tx Db Error Allocation
insert_allocation new_id escrow_id milestone_id billing_week amount =
    let new = new_allocation new_id escrow_id milestone_id billing_week amount in
    do
      db ← get_db
      fail_if (leb_ℤ amount (pos 0)) constraint_violation
      fail_if (not (is_some milestone_id || is_some billing_week)) constraint_violation
      fail_if (is_some (find (collides new) db.allocations)) duplicate_allocation
      modify (λ d. record d { allocations = d.allocations ++ new ∷ [] })
      pure new

unfoldable pub held_allocation_by_milestone : String → String → Tx Db Error Allocation
held_allocation_by_milestone escrow_id m = do
  db ← get_db
  or_fail (find (is_reserved_milestone escrow_id m) db.allocations) not_found

unfoldable pub allocation_by_milestone : String → String → Tx Db Error Allocation
allocation_by_milestone escrow_id m = do
  db ← get_db
  or_fail (find (is_active_milestone escrow_id m) db.allocations) not_found

unfoldable pub allocation_by_billing_week : String → String → Tx Db Error Allocation
allocation_by_billing_week escrow_id w = do
  db ← get_db
  or_fail (find (is_active_week escrow_id w) db.allocations) not_found

abbrev pub set_released : Allocation → Allocation
set_released a = record a { status = AllocationStatus.released }

unfoldable pub mark_allocation_released : String → Tx Db Error Allocation
mark_allocation_released id = do
  db ← get_db
  a ← or_fail (find (is_reserved_row id) db.allocations) not_found
  modify (λ d. record d { allocations = update (is_reserved_row id) set_released d.allocations })
  pure (set_released a)

-- What a row adds to its escrow's reserved sum.
abbrev pub reserved_for : String → Allocation → ℤ
reserved_for escrow_id a =
    if a.escrow_id == escrow_id && is_reserved a.status then a.amount_cents else pos 0

-- The sum is at most the held cents in every state that the service reaches, so the scan of the
-- NUMERIC into an int64 does not overflow.
unfoldable pub sum_held_allocations : String → Tx Db Error ℤ
sum_held_allocations escrow_id = do
  db ← get_db
  pure (sum_by (reserved_for escrow_id) db.allocations)

unfoldable pub rows_of : String → List Allocation → List Allocation
rows_of escrow_id [] = []
rows_of escrow_id (a ∷ rest) =
    if a.escrow_id == escrow_id then a ∷ rows_of escrow_id rest else rows_of escrow_id rest

unfoldable pub list_allocations : String → Tx Db Error (List Allocation)
unfolding rows_of
list_allocations escrow_id = do db ← get_db; pure (rows_of escrow_id db.allocations)

-- The first loop of `WriteLegs`, from a sum so far. The service writes legs of plus and minus one
-- positive int64 in turn, so the sum stays within int64.
unfoldable pub sum_legs : ℤ → List Leg → ℤ
sum_legs sum [] = sum
sum_legs sum (l ∷ legs) = sum_legs (sum +ℤ l.amount_cents) legs

-- Its second loop.
unfoldable pub postings : String → List Leg → List Posting
postings group [] = []
postings group (l ∷ legs) = record { txn_group = group; leg = l } ∷ postings group legs

unfoldable pub write_legs : String → List Leg → Tx Db Error (Unit {0})
unfolding sum_legs postings
write_legs group legs = do
  fail_if (not (eqb_ℤ (sum_legs (pos 0) legs) (pos 0))) unbalanced
  modify (λ d. record d { transactions = d.transactions ++ postings group legs })

-- `outbox.Enqueue`
unfoldable pub enqueue : Event → Tx Db Error (Unit {0})
enqueue ev = modify (λ d. record d { outbox = d.outbox ++ ev ∷ [] })
