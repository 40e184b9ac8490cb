-- ===== src/Payment/Once/Intent.antt =====
-- `CreatePaymentIntent` of services/payment/internal/service/service.go and repeated keys.
use aizorix_freelancer.Base.{
  String, false, Option, none, some, List, ◌≡◌, refl, ◌==◌, arith, inl, inr, ap, sym, ◌∙◌,
  Bool-cases, Option-cases, if◌then◌else◌, eq_refl,
}
use mathlib.Core.Path.{subst}
use aizorix_freelancer.Base.Int.{ℤ, pos, leb_ℤ}
use aizorix_freelancer.Base.Table.{find, find-append_some, find-append, find-update_either}
use aizorix_freelancer.Base.Tx.{Result, ok, err, Result-cases}
use aizorix_freelancer.Payment.Tables.{Payment, IntentResult, Db, Error}
use aizorix_freelancer.Payment.Store.{
  has_idempotency_key, is_processing_row, set_succeeded, insert_payment,
}
use aizorix_freelancer.Payment.Service.{
  create_payment_intent, end_insert, optional_key, result_from_payment,
}
use aizorix_freelancer.Payment.Changes.{
  Change, inserted, recorded, stamped, captured, Changes, unchanged, step, insert_payment-eq-ok,
}
use aizorix_freelancer.Payment.Requests.{Request, serve, serve-Changes}

-- A payment with an idempotency key.
abbrev pub HasPayment : String → String → Db → Type 0
HasPayment key id db =
    (p : Payment) × (find (has_idempotency_key key) db.payments ≡ some p) × (p.id ≡ id)

Change-HasPayment :
    {db db' : Db} (key id : String) → Change db db' → HasPayment key id db → HasPayment key id db'
Change-HasPayment {db} key id (inserted p n st) (q, s, e) =
    (q, find-append_some (has_idempotency_key key) p q db.payments s, e)
Change-HasPayment key id (recorded ev) h = h
Change-HasPayment key id (stamped now k) h = h
Change-HasPayment {db} key id (captured charge group k p r) (q, s, e) =
    elim (find-update_either (has_idempotency_key key) (is_processing_row k) (set_succeeded charge)
      q db.payments (λ x. refl) s) [ inl t ↦ (q, t, e) | inr t ↦ (set_succeeded charge q, t, e) ]

Changes-HasPayment :
    {db db' : Db} (key id : String) → Changes db db' → HasPayment key id db → HasPayment key id db'
Changes-HasPayment key id unchanged h = h
Changes-HasPayment key id (step cs c) h =
    Change-HasPayment key id c (Changes-HasPayment key id cs h)

create_payment_intent_known :
    (answer : Option (String × String)) (new_id payer : String) (contract_id : Option String)
    (amount : ℤ) (currency key : String) (db : Db) (p : Payment)
    → find (has_idempotency_key key) db.payments ≡ some p
    → (key == "") ≡ false
    → leb_ℤ amount (pos 0) ≡ false
    → create_payment_intent answer new_id payer contract_id amount currency key db
      ≡ (ok (result_from_payment p), db)
unfolding create_payment_intent
create_payment_intent_known answer new_id payer contract_id amount currency key db p s k positive =
    rw (positive, k, s) refl

ok_is_not_err :
    (e : Error) (r : IntentResult) (db db' : Db) (x : Result Error IntentResult × Db)
    → x ≡ (err e, db)
    → x ≡ (ok r, db')
    → ⊥
ok_is_not_err e r db db' x g h = ground arith

parts_of_ok :
    (q r : IntentResult) (db db' : Db) (x : Result Error IntentResult × Db)
    → x ≡ (ok q, db)
    → x ≡ (ok r, db')
    → (db ≡ db') × (q.payment_id ≡ r.payment_id)
parts_of_ok q r db db' x g h = (ground arith, ground arith)

-- An insert that has failed, where no payment has the key, is an error.
end_insert_err :
    (secret key : String) (e : Error) (db : Db)
    → (key == "") ≡ false
    → find (has_idempotency_key key) db.payments ≡ none
    → (e' : Error) × (end_insert secret key (err e) db ≡ (err e', db))
end_insert_err secret key Error.duplicate_key db k n = (Error.duplicate_key, rw (k, n) refl)
end_insert_err secret key Error.not_found db k n = (Error.not_found, refl)
end_insert_err secret key Error.bad_amount db k n = (Error.bad_amount, refl)
end_insert_err secret key Error.stripe_failed db k n = (Error.stripe_failed, refl)
end_insert_err secret key Error.unbalanced db k n = (Error.unbalanced, refl)
end_insert_err secret key Error.missing_event_id db k n = (Error.missing_event_id, refl)
end_insert_err secret key Error.constraint_violation db k n = (Error.constraint_violation, refl)

end_insert-HasPayment :
    (new_id payer : String) (contract_id : Option String) (amount : ℤ)
    (currency intent secret key : String) (db db' : Db) (r : IntentResult)
    → (key == "") ≡ false
    → find (has_idempotency_key key) db.payments ≡ none
    → end_insert secret key
        (insert_payment new_id payer contract_id amount currency intent (optional_key key) db)
        db
      ≡ (ok r, db')
    → HasPayment key r.payment_id db'
end_insert-HasPayment new_id payer contract_id amount currency intent secret key db db' r k n h =
    elim (Result-cases
      (insert_payment new_id payer contract_id amount currency intent (optional_key key) db)) [
        | inl (e, f) ↦
            let (e', g) = end_insert_err secret key e db k n in
            absurd
              (ok_is_not_err e' r db db' _ g (sym (ap (λ x. end_insert secret key x db) f) ∙ h))
        | inr ((p, mid), f) ↦
            let (fresh, same, e, free) =
              insert_payment-eq-ok new_id payer contract_id amount currency intent
                (optional_key key) db mid p f in
            let h' = sym (ap (λ x. end_insert secret key x db) f) ∙ h in
            let (same_db, pid) =
              parts_of_ok _ r mid db' (end_insert secret key (ok (p, mid)) db) refl h' in
            let has : HasPayment key p.id mid = (
              p,
              ap (λ d. find (has_idempotency_key key) d.payments) e
                  ∙ find-append (has_idempotency_key key) p db.payments n
                  ∙ rw (same, k, eq_refl key) refl,
              refl,
            ) in
            subst (λ d. HasPayment key r.payment_id d) same_db
              (subst (λ i. HasPayment key i mid) pid has)
      ]

created-HasPayment :
    (answer : Option (String × String)) (new_id payer : String) (contract_id : Option String)
    (amount : ℤ) (currency key : String) (db db' : Db) (r : IntentResult)
    → (key == "") ≡ false
    → create_payment_intent answer new_id payer contract_id amount currency key db ≡ (ok r, db')
    → HasPayment key r.payment_id db'
unfolding create_payment_intent
created-HasPayment none new_id payer contract_id amount currency key db db' r k h =
    elim (Option-cases (find (has_idempotency_key key) db.payments)) [
      | inl n ↦ ground arith
      | inr (p, s) ↦ (p, ground arith, ground arith)
    ]
created-HasPayment (some (intent, secret)) new_id payer contract_id amount currency key db db' r k
      h =
    elim (Option-cases (find (has_idempotency_key key) db.payments)) [
      | inl n ↦
          end_insert-HasPayment new_id payer contract_id amount
            (if currency == "" then "USD" else currency) intent secret key db db' r k n
            (elim (Bool-cases (leb_ℤ amount (pos 0))) [
              | inl low ↦ ground arith
              | inr positive ↦ ground arith
            ])
      | inr (p, s) ↦ (p, ground arith, ground arith)
    ]

-- Once an intent with an idempotency key has been created, whatever requests come between, a
-- request with that key and a positive amount is answered with the same payment and changes nothing.
pub create_payment_intent_once :
    (answer answer' : Option (String × String)) (new_id new_id' payer payer' : String)
    (contract_id contract_id' : Option String) (amount amount' : ℤ)
    (currency currency' key : String) (db db' : Db) (r : IntentResult) (rs : List Request)
    → (key == "") ≡ false
    → create_payment_intent answer new_id payer contract_id amount currency key db ≡ (ok r, db')
    → leb_ℤ amount' (pos 0) ≡ false
    → (p : Payment) × (p.id ≡ r.payment_id)
      × (create_payment_intent answer' new_id' payer' contract_id' amount' currency' key
            (serve rs db')
          ≡ (ok (result_from_payment p), serve rs db'))
create_payment_intent_once answer answer' new_id new_id' payer payer' contract_id contract_id'
      amount amount' currency currency' key db db' r rs k h positive =
    let first =
      created-HasPayment answer new_id payer contract_id amount currency key db db' r k h in
    let (p, s, e) = Changes-HasPayment key r.payment_id (serve-Changes rs db') first in
    (
      p,
      e,
      create_payment_intent_known answer' new_id' payer' contract_id' amount' currency' key
          (serve rs db') p s k positive,
    )
