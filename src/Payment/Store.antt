-- ===== src/Payment/Store.antt =====
-- The queries of services/payment/internal/store/store.go, one transaction step each. Ids that the
-- database draws and the time of `now()` are arguments.
use aizorix_freelancer.Base.{
  ℕ, String, Bool, true, false, Option, none, some, List, [], ◌∷◌, ◌++◌, ◌&&◌, not, ◌==◌,
  if◌then◌else◌, is_some,
}
use mathlib.Core.List.{reverse}
use aizorix_freelancer.Base.Int.{ℤ, pos, ◌+ℤ◌, eqb_ℤ, leb_ℤ}
use aizorix_freelancer.Base.Outbox.{Event}
use aizorix_freelancer.Base.Table.{find, update}
use aizorix_freelancer.Base.Tx.{Tx, pure, get_db, modify, fail_if, or_fail, ◌>>=◌, ◌>>◌}
use aizorix_freelancer.Payment.Tables.{
  Payment, PaymentStatus, Leg, Posting, EventRow, Db, Error, not_found, duplicate_key, unbalanced,
  constraint_violation, is_processing,
}

abbrev pub has_id : String → Payment → Bool
has_id id p = p.id == id

abbrev pub is_text : Option String → String → Bool
is_text none t = false
is_text (some s) t = s == t

abbrev pub has_idempotency_key : String → Payment → Bool
has_idempotency_key key p = is_text p.idempotency_key key

abbrev pub has_intent : String → Payment → Bool
has_intent intent p = is_text p.stripe_payment_intent_id intent

-- A key that is NULL is not in conflict with any.
abbrev pub key_taken : Option String → List Payment → Bool
key_taken none ps = false
key_taken (some key) ps = is_some (find (has_idempotency_key key) ps)

abbrev pub new_payment :
    String → String → Option String → ℤ → String → String → Option String → Payment
new_payment new_id payer contract_id amount currency intent key = record {
  id = new_id;
  contract_id = contract_id;
  payer_id = payer;
  amount_cents = amount;
  currency = currency;
  status = PaymentStatus.processing;
  stripe_payment_intent_id = some intent;
  stripe_charge_id = none;
  idempotency_key = key;
}

unfoldable pub insert_payment :
    String → String → Option String → ℤ → String → String → Option String → Tx Db Error Payment
insert_payment new_id payer contract_id amount currency intent key = do
  db ← get_db
  fail_if (leb_ℤ amount (pos 0)) constraint_violation
  fail_if (is_some (find (has_id new_id) db.payments)) duplicate_key
  fail_if (key_taken key db.payments) duplicate_key
  fail_if (is_some (find (has_intent intent) db.payments)) duplicate_key
  modify (λ d. record d {
    payments = d.payments ++ new_payment new_id payer contract_id amount currency intent key ∷ [];
  })
  pure (new_payment new_id payer contract_id amount currency intent key)

unfoldable pub get_payment : String → Tx Db Error Payment
get_payment id = do db ← get_db; or_fail (find (has_id id) db.payments) not_found

unfoldable pub get_payment_by_idempotency_key : String → Tx Db Error Payment
get_payment_by_idempotency_key key = do
  db ← get_db
  or_fail (find (has_idempotency_key key) db.payments) not_found

unfoldable pub get_payment_by_intent : String → Tx Db Error Payment
get_payment_by_intent intent = do
  db ← get_db
  or_fail (find (has_intent intent) db.payments) not_found

abbrev pub is_processing_row : String → Payment → Bool
is_processing_row id p = p.id == id && is_processing p.status

abbrev pub set_succeeded : String → Payment → Payment
set_succeeded charge p = record p {
  status = PaymentStatus.succeeded;
  stripe_charge_id = some charge;
}

unfoldable pub mark_succeeded : String → String → Tx Db Error Payment
mark_succeeded id charge = do
  db ← get_db
  p ← or_fail (find (is_processing_row id) db.payments) not_found
  modify
      (λ d. record d { payments = update (is_processing_row id) (set_succeeded charge) d.payments })
  pure (set_succeeded charge p)

-- The rows of a contract, in order.
abbrev pub rows_of : String → List Payment → List Payment
rows_of contract_id [] = []
rows_of contract_id (p ∷ ps) =
    if is_text p.contract_id contract_id then p ∷ rows_of contract_id ps else rows_of contract_id ps

unfoldable pub list_payments_for_contract : String → Tx Db Error (List Payment)
list_payments_for_contract contract_id = do
  db ← get_db
  pure (reverse (rows_of contract_id db.payments))

-- The first loop of `WriteLegs`, from a sum so far. The service writes legs of plus and minus one
-- positive int64 in turn, so the sum stays within int64.
unfoldable pub sum_legs : ℤ → List Leg → ℤ
sum_legs sum [] = sum
sum_legs sum (l ∷ legs) = sum_legs (sum +ℤ l.amount_cents) legs

-- Its second loop.
unfoldable pub postings : String → List Leg → List Posting
postings group [] = []
postings group (l ∷ legs) = record { txn_group = group; leg = l } ∷ postings group legs

unfoldable pub write_legs : String → List Leg → Tx Db Error (Unit {0})
unfolding sum_legs postings
write_legs group legs = do
  fail_if (not (eqb_ℤ (sum_legs (pos 0) legs) (pos 0))) unbalanced
  modify (λ d. record d { transactions = d.transactions ++ postings group legs })

abbrev pub has_event_id : String → EventRow → Bool
has_event_id id ev = ev.id == id

-- Whether the event is new; the insert of one that is there does nothing.
unfoldable pub insert_stripe_event : String → String → String → Tx Db Error Bool
insert_stripe_event id event_type payload = do
  db ← get_db
  if is_some (find (has_event_id id) db.stripe_events) then pure false else (do
    modify (λ d. record d {
      stripe_events =
          d.stripe_events
          ++ record { id = id; event_type = event_type; payload = payload; processed_at = none }
            ∷ [];
    })
    pure true)

abbrev pub set_processed : ℕ → EventRow → EventRow
set_processed now ev = record ev { processed_at = some now }

unfoldable pub mark_stripe_event_processed : ℕ → String → Tx Db Error (Unit {0})
mark_stripe_event_processed now id =
    modify (λ d. record d {
      stripe_events = update (has_event_id id) (set_processed now) d.stripe_events;
    })

unfoldable pub enqueue : Event → Tx Db Error (Unit {0})
enqueue ev = modify (λ d. record d { outbox = d.outbox ++ ev ∷ [] })
