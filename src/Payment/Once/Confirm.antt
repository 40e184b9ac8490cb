-- ===== src/Payment/Once/Confirm.antt =====
-- `ConfirmPayment` of services/payment/internal/service/service.go and repeated confirmations.
use aizorix_freelancer.Base.{
  String, false, some, List, ◌≡◌, refl, arith, inl, inr, ◌∙◌, Option-cases, eq_refl, text-cases,
}
use mathlib.Core.Path.{subst}
use aizorix_freelancer.Base.Table.{find, find-append_some}
use aizorix_freelancer.Base.Tx.{ok, err}
use aizorix_freelancer.Payment.Tables.{Payment, Db, not_found, is_processing}
use aizorix_freelancer.Payment.Store.{has_id, is_processing_row, set_succeeded}
use aizorix_freelancer.Payment.Service.{confirm_payment}
use aizorix_freelancer.Payment.Changes.{
  Change, inserted, recorded, stamped, captured, Changes, unchanged, step, confirm_payment-eq-ok,
  confirm_payment-Changes,
}
use aizorix_freelancer.Payment.Books.{IsBooked, Changes-IsBooked, find-captured, found_processing}
use aizorix_freelancer.Payment.Requests.{Request, serve, serve-Changes}

-- A payment of an id that is not 'processing'.
abbrev pub HasLeft : String → Db → Type 0
HasLeft id db =
    (p : Payment) × (find (has_id id) db.payments ≡ some p) × (is_processing p.status ≡ false)

Change-HasLeft :
    {db db' : Db} (id : String) → Change db db' → IsBooked db → HasLeft id db → HasLeft id db'
Change-HasLeft {db} id (inserted p n st) b (q, s, l) =
    (q, find-append_some (has_id id) p q db.payments s, l)
Change-HasLeft id (recorded ev) b h = h
Change-HasLeft id (stamped now k) b h = h
Change-HasLeft {db} id (captured charge group k p r) b (q, s, l) = elim (text-cases p.id id) [
  | inl (e, t) ↦
      (set_succeeded charge p, find-captured charge k id p db.payments b.unique r ∙ rw t refl, refl)
  | inr (e, t) ↦ (q, find-captured charge k id p db.payments b.unique r ∙ rw (t, s) refl, l)
]

Changes-HasLeft :
    {db db' : Db} (id : String) → Changes db db' → IsBooked db → HasLeft id db → HasLeft id db'
Changes-HasLeft id unchanged b h = h
Changes-HasLeft id (step cs c) b h =
    Change-HasLeft id c (Changes-IsBooked cs b) (Changes-HasLeft id cs b h)

confirm_payment-HasLeft :
    (charge group id : String) (db db' : Db) (q : Payment)
    → IsBooked db
    → confirm_payment charge group id db ≡ ok (q, db')
    → HasLeft id db'
confirm_payment-HasLeft charge group id db db' q b h =
    let (p, s, e) = confirm_payment-eq-ok charge group id db db' q h in
    let (same, processing, row) = found_processing id p db.payments b.unique s in
    rw e (
      set_succeeded charge p,
      find-captured charge id id p db.payments b.unique s ∙ rw (same, eq_refl id) refl,
      refl,
    )

confirm_payment_refused :
    (charge group id : String) (db : Db)
    → IsBooked db
    → HasLeft id db
    → confirm_payment charge group id db ≡ err not_found
unfolding confirm_payment
confirm_payment_refused charge group id db b (q, s, l) =
    elim (Option-cases (find (is_processing_row id) db.payments)) [
      | inl n ↦ ground arith
      | inr (p, r) ↦
          let (same, processing, row) = found_processing id p db.payments b.unique r in
          let row' : find (has_id id) db.payments ≡ some p =
            subst (λ k. find (has_id k) db.payments ≡ some p) same row in
          ground arith
    ]

-- A payment is captured once: after a confirmation that succeeds on booked tables, whatever
-- requests come between, another one of the same payment fails with 'not found'.
pub confirm_payment_once :
    (charge group charge' group' id : String) (db db' : Db) (q : Payment) (rs : List Request)
    → IsBooked db
    → confirm_payment charge group id db ≡ ok (q, db')
    → confirm_payment charge' group' id (serve rs db') ≡ err not_found
confirm_payment_once charge group charge' group' id db db' q rs b h =
    let b' = Changes-IsBooked (confirm_payment-Changes charge group id db db' q h) b in
    confirm_payment_refused charge' group' id (serve rs db')
      (Changes-IsBooked (serve-Changes rs db') b')
      (Changes-HasLeft id (serve-Changes rs db') b'
        (confirm_payment-HasLeft charge group id db db' q b h))
