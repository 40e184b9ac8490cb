-- ===== src/Payment/Changes.antt =====
-- What the methods of the payment service do to its tables.
use aizorix_freelancer.Base.{
  ℕ, String, true, false, Option, none, some, [], ◌∷◌, ◌++◌, ◌≡◌, ◌==◌, arith, inl, inr,
  Option-cases, Bool-cases, is_some, ◌⊎◌,
}
use mathlib.Core.Path.{subst}
use aizorix_freelancer.Base.Int.{ℤ, pos, int_laws}
use aizorix_freelancer.Base.Table.{find, update}
use aizorix_freelancer.Base.Tx.{ok, Result-cases}
use aizorix_freelancer.Payment.Tables.{
  Payment, PaymentStatus, StripeEvent, EventRow, Db, is_processing,
}
use aizorix_freelancer.Payment.Store.{
  has_id, has_intent, is_processing_row, set_succeeded, set_processed, has_event_id, new_payment,
  key_taken, insert_payment, insert_stripe_event, mark_stripe_event_processed, write_legs, postings,
  sum_legs,
}
use aizorix_freelancer.Payment.Service.{
  deposit_legs, captured_event, confirm_payment, apply_event, handle_webhook, write_deposit_ledger,
}

-- The tables after a capture of a payment.
abbrev pub capture : String → String → String → Payment → Db → Db
capture charge group id p db = record db {
  payments = update (is_processing_row id) (set_succeeded charge) db.payments;
  transactions = db.transactions ++ postings group (deposit_legs (set_succeeded charge p));
  outbox = db.outbox ++ captured_event (set_succeeded charge p) ∷ [];
}

abbrev pub event_row : StripeEvent → String → EventRow
event_row ev payload = record {
  id = ev.id;
  event_type = ev.event_type;
  payload = payload;
  processed_at = none;
}

pub data Change (db : Db) : Db → Type 0 where
  inserted :
      (p : Payment)
      → find (has_id p.id) db.payments ≡ none
      → p.status ≡ PaymentStatus.processing
      → Change db (record db { payments = db.payments ++ p ∷ [] })
  recorded : (ev : EventRow) → Change db (record db { stripe_events = db.stripe_events ++ ev ∷ [] })
  stamped :
      (now : ℕ) (id : String)
      → Change db (record db {
        stripe_events = update (has_event_id id) (set_processed now) db.stripe_events;
      })
  captured :
      (charge group id : String) (p : Payment)
      → find (is_processing_row id) db.payments ≡ some p
      → Change db (capture charge group id p db)

pub data Changes (db : Db) : Db → Type 0 where
  unchanged : Changes db db
  step : {a b : Db} → Changes db a → Change a b → Changes db b

pub Changes-trans : {a b c : Db} → Changes a b → Changes b c → Changes a c
Changes-trans p unchanged = p
Changes-trans p (step q c) = step (Changes-trans p q) c

deposit_legs_balance : (p : Payment) → sum_legs (pos 0) (deposit_legs p) ≡ pos 0
unfolding sum_legs
deposit_legs_balance p = omega int_laws

-- The legs are in balance, so they are written.
pub write_deposit_ledger_runs :
    (group : String) (p : Payment) (db : Db)
    → write_deposit_ledger group p db
      ≡ ok (
        tt,
        record db {
          transactions = db.transactions ++ postings group (deposit_legs p);
          outbox = db.outbox ++ captured_event p ∷ [];
        },
      )
unfolding write_deposit_ledger write_legs
write_deposit_ledger_runs group p db =
    let balanced = deposit_legs_balance p in ground (arith, balanced)

pub confirm_payment-eq-ok :
    (charge group id : String) (db db' : Db) (q : Payment)
    → confirm_payment charge group id db ≡ ok (q, db')
    → (p : Payment) × (find (is_processing_row id) db.payments ≡ some p)
      × (db' ≡ capture charge group id p db)
unfolding confirm_payment
confirm_payment-eq-ok charge group id db db' q h =
    elim (Option-cases (find (is_processing_row id) db.payments)) [
      | inl n ↦ ground arith
      | inr (p, s) ↦ (
        p,
        s,
        ground (
          arith,
          write_deposit_ledger_runs group (set_succeeded charge p) (record db {
            payments = update (is_processing_row id) (set_succeeded charge) db.payments;
          }),
        ),
      )
    ]

pub insert_payment-eq-ok :
    (new_id payer : String) (contract_id : Option String) (amount : ℤ) (currency intent : String)
    (key : Option String) (db db' : Db) (p : Payment)
    → insert_payment new_id payer contract_id amount currency intent key db ≡ ok (p, db')
    → (find (has_id new_id) db.payments ≡ none)
      × (p ≡ new_payment new_id payer contract_id amount currency intent key)
      × (db' ≡ record db { payments = db.payments ++ p ∷ [] })
      × (key_taken key db.payments ≡ false)
unfolding insert_payment
insert_payment-eq-ok new_id payer contract_id amount currency intent key db db' p h =
    elim (Option-cases (find (has_id new_id) db.payments)) [
      | inr (d, s) ↦ ground arith
      | inl n ↦ (n, ground arith, ground arith, ground arith)
    ]

pub confirm_payment-Changes :
    (charge group id : String) (db db' : Db) (q : Payment)
    → confirm_payment charge group id db ≡ ok (q, db')
    → Changes db db'
confirm_payment-Changes charge group id db db' q h =
    let (p, s, e) = confirm_payment-eq-ok charge group id db db' q h in
    rw e (step unchanged (captured charge group id p s))

pub apply_event-Changes :
    (charge group : String) (ev : StripeEvent) (db db' : Db) (u : Unit {0})
    → apply_event charge group ev db ≡ ok (u, db')
    → Changes db db'
unfolding apply_event
apply_event-Changes charge group ev db db' u h =
    elim (Bool-cases (ev.event_type == "payment_intent.succeeded")) [
      | inr f ↦ let same : db ≡ db' = ground arith in subst (λ d. Changes db d) same unchanged
      | inl t ↦ elim (Option-cases (find (has_intent ev.object_id) db.payments)) [
        | inl n ↦ ground arith
        | inr (p, s) ↦ elim (Bool-cases (is_processing p.status)) [
          | inr f ↦ let same : db ≡ db' = ground arith in subst (λ d. Changes db d) same unchanged
          | inl c ↦ elim (Result-cases (confirm_payment charge group p.id db)) [
            | inl (e, f) ↦ ground arith
            | inr ((q, mid), f) ↦
                let same : mid ≡ db' = ground arith in
                subst (λ d. Changes db d) same
                  (confirm_payment-Changes charge group p.id db mid q f)
          ]
        ]
      ]
    ]

-- A webhook that succeeds has seen the event before, or records, applies and stamps it.
pub handle_webhook-eq-ok :
    (now : ℕ) (charge group : String) (ev : StripeEvent) (payload : String) (db db' : Db)
    → handle_webhook now charge group ev payload db ≡ ok (tt, db')
    → ((is_some (find (has_event_id ev.id) db.stripe_events) ≡ true) × (db' ≡ db))
      ⊎ ((mid : Db) × (apply_event charge group ev
              (record db { stripe_events = db.stripe_events ++ event_row ev payload ∷ [] })
            ≡ ok (tt, mid))
          × (db' ≡ record mid {
            stripe_events = update (has_event_id ev.id) (set_processed now) mid.stripe_events;
          }))
unfolding handle_webhook insert_stripe_event mark_stripe_event_processed
handle_webhook-eq-ok now charge group ev payload db db' h =
    elim (Bool-cases (is_some (find (has_event_id ev.id) db.stripe_events))) [
      | inl seen ↦ inl (seen, ground arith)
      | inr new ↦
          elim (Result-cases (
            apply_event charge group ev
              (record db { stripe_events = db.stripe_events ++ event_row ev payload ∷ [] }))) [
                | inl (e, f) ↦ ground arith
                | inr ((u, mid), f) ↦ inr (mid, f, ground arith)
              ]
    ]

pub handle_webhook-Changes :
    (now : ℕ) (charge group : String) (ev : StripeEvent) (payload : String) (db db' : Db)
    → handle_webhook now charge group ev payload db ≡ ok (tt, db')
    → Changes db db'
handle_webhook-Changes now charge group ev payload db db' h =
    elim (handle_webhook-eq-ok now charge group ev payload db db' h) [
      | inl (seen, e) ↦ rw e unchanged
      | inr (mid, run, e) ↦ rw e (
          step
            (Changes-trans (step unchanged (recorded (event_row ev payload)))
              (apply_event-Changes charge group ev _ mid tt run))
            (stamped now ev.id))
    ]
