-- ===== src/Payment/Books.antt =====
-- The ledger of the payment service against the status of the payments.
use aizorix_freelancer.Base.{
  String, Bool, true, Option, none, some, List, [], ◌∷◌, ◌++◌, ◌≡◌, refl, ◌==◌, arith, inl, inr, ap,
  ◌∙◌, if◌then◌else◌, Option-cases, Bool-cases, text-cases, eq_iff,
}
use mathlib.Core.Path.{subst}
use mathlib.Core.List.{append-nil}
use aizorix_freelancer.Base.Int.{ℤ, pos, ◌-ℤ◌}
use aizorix_freelancer.Base.Rows.{rows_by-append}
use aizorix_freelancer.Base.Table.{
  rows_by, find, update, UniqueBy, UniqueBy-append, UniqueBy-update, find_by_key, update_by_key,
  find_key-update, find-append, find-append_some, test-find,
}
use aizorix_freelancer.Payment.Tables.{
  Payment, PaymentStatus, AccountKind, Posting, Db, is_processing,
}
use aizorix_freelancer.Payment.Store.{has_id, is_text, is_processing_row, set_succeeded, postings}
use aizorix_freelancer.Payment.Service.{deposit_legs}
use aizorix_freelancer.Payment.Changes.{
  Change, inserted, recorded, stamped, captured, Changes, unchanged, step,
}

-- A posting of an amount for a payment.
abbrev pub entry : String → Payment → AccountKind → ℤ → Posting
entry group p kind amount = record {
  txn_group = group;
  leg = record {
    account_kind = kind;
    contract_id = p.contract_id;
    amount_cents = amount;
    currency = p.currency;
    payment_id = some p.id;
  };
}

-- The postings of one deposit: the cents come from Stripe to the client, and go on to escrow.
abbrev pub deposit_rows : String → Payment → List Posting
deposit_rows group p =
    entry group p AccountKind.stripe_clearing (pos 0 -ℤ p.amount_cents)
    ∷ entry group p AccountKind.client_funding p.amount_cents
    ∷ entry group p AccountKind.client_funding (pos 0 -ℤ p.amount_cents)
    ∷ entry group p AccountKind.escrow p.amount_cents
    ∷ []

abbrev pub is_for : String → Posting → Bool
is_for id x = is_text x.leg.payment_id id

-- The postings for a payment, in order.
abbrev pub ledger : String → Db → List Posting
ledger id db = rows_by (is_for id) db.transactions

-- The rows are one deposit, in one group, for a payment that has succeeded; else there are none.
abbrev pub IsDeposit : Option Payment → List Posting → Type 0
IsDeposit none xs = xs ≡ []
IsDeposit (some p) xs = elim p.status [
  | PaymentStatus.succeeded ↦ (group : String) × (xs ≡ deposit_rows group p)
  | _ ↦ xs ≡ []
]

abbrev pub payment_key : Payment → String
payment_key p = p.id

-- The postings for each id are those that the payment's status asks for.
pub record IsBooked (db : Db) : Type 0 where
  pub unique : UniqueBy payment_key db.payments
  pub books : (id : String) → IsDeposit (find (has_id id) db.payments) (ledger id db)

ledger_of_deposit :
    (group id : String) (p : Payment)
    → rows_by (is_for id) (postings group (deposit_legs p))
      ≡ (if p.id == id then deposit_rows group p else [])
unfolding postings
ledger_of_deposit group id p = elim (Bool-cases (p.id == id)) [
  | inl e ↦ rw e refl
  | inr e ↦ rw e refl
]

processing_status : (st : PaymentStatus) → is_processing st ≡ true → st ≡ PaymentStatus.processing
processing_status st h = ground arith

processing-IsDeposit :
    (p : Payment) (xs : List Posting)
    → is_processing p.status ≡ true
    → IsDeposit (some p) xs
    → xs ≡ []
processing-IsDeposit p xs h d =
    let same : p.status ≡ PaymentStatus.processing = processing_status p.status h in
    subst
      (λ st. elim st [
        | PaymentStatus.succeeded ↦ (group : String) × (xs ≡ deposit_rows group p)
        | _ ↦ xs ≡ []
      ])
      same d

-- A row that a query for a 'processing' payment finds.
pub found_processing :
    (id : String) (p : Payment) (ps : List Payment)
    → UniqueBy payment_key ps
    → find (is_processing_row id) ps ≡ some p
    → (p.id ≡ id) × (is_processing p.status ≡ true) × (find (has_id p.id) ps ≡ some p)
found_processing id p ps u s =
    let test : is_processing_row id p ≡ true = test-find (is_processing_row id) p ps s in
    (
      ground (arith, test, eq_iff p.id id),
      ground (arith, test),
      find_by_key payment_key (is_processing_row id) p ps u s,
    )

pub find-captured :
    (charge id j : String) (p : Payment) (ps : List Payment)
    → UniqueBy payment_key ps
    → find (is_processing_row id) ps ≡ some p
    → find (has_id j) (update (is_processing_row id) (set_succeeded charge) ps)
      ≡ (if p.id == j then some (set_succeeded charge p) else find (has_id j) ps)
find-captured charge id j p ps u s =
    let (same, processing, row) = found_processing id p ps u s in
    ap (find (has_id j))
      (update_by_key payment_key (is_processing_row id) (set_succeeded charge) p ps u s)
    ∙ find_key-update payment_key p.id j (set_succeeded charge) p ps (λ x. refl) row

captured-IsDeposit :
    (charge group id j : String) (p : Payment) (db : Db)
    → UniqueBy payment_key db.payments
    → find (is_processing_row id) db.payments ≡ some p
    → IsDeposit (find (has_id j) db.payments) (ledger j db)
    → IsDeposit
        (if p.id == j then some (set_succeeded charge p) else find (has_id j) db.payments)
        (ledger j db ++ (if p.id == j then deposit_rows group (set_succeeded charge p) else []))
captured-IsDeposit charge group id j p db u s b =
    let (same, processing, row) = found_processing id p db.payments u s in
    elim (text-cases p.id j) [
      | inl (e, t) ↦
          let row' : find (has_id j) db.payments ≡ some p =
            subst (λ k. find (has_id k) db.payments ≡ some p) e row in
          let nothing : ledger j db ≡ [] =
            processing-IsDeposit p (ledger j db) processing
              (subst (λ o. IsDeposit o (ledger j db)) row' b) in
          rw (t, nothing) (group, refl)
      | inr (e, t) ↦ rw (t, append-nil (ledger j db)) b
    ]

captured_books :
    (charge group id j : String) (p : Payment) (db : Db)
    → UniqueBy payment_key db.payments
    → find (is_processing_row id) db.payments ≡ some p
    → IsDeposit (find (has_id j) db.payments) (ledger j db)
    → IsDeposit
        (find (has_id j) (update (is_processing_row id) (set_succeeded charge) db.payments))
        (rows_by
          (is_for j)
          (db.transactions ++ postings group (deposit_legs (set_succeeded charge p))))
captured_books charge group id j p db u s b =
    rw
      (
        find-captured charge id j p db.payments u s,
        rows_by-append (is_for j) db.transactions
            (postings group (deposit_legs (set_succeeded charge p))),
        ledger_of_deposit group j (set_succeeded charge p),
      )
      (captured-IsDeposit charge group id j p db u s b)

inserted-IsDeposit :
    (p : Payment) (j : String) (ps : List Payment) (xs : List Posting)
    → p.status ≡ PaymentStatus.processing
    → IsDeposit (find (has_id j) ps) xs
    → IsDeposit (find (has_id j) (ps ++ p ∷ [])) xs
inserted-IsDeposit p j ps xs st b = elim (Option-cases (find (has_id j) ps)) [
  | inr (q, s) ↦ rw (find-append_some (has_id j) p q ps s) (subst (λ o. IsDeposit o xs) s b)
  | inl absent ↦
      let none_there : xs ≡ [] = subst (λ o. IsDeposit o xs) absent b in
      rw (find-append (has_id j) p ps absent)
        (elim (Bool-cases (has_id j p)) [ inl e ↦ rw (e, st) none_there | inr e ↦ rw e none_there ])
]

pub Change-IsBooked : {db db' : Db} → Change db db' → IsBooked db → IsBooked db'
Change-IsBooked {db} (inserted p n st) b = record {
  unique = UniqueBy-append payment_key p db.payments b.unique n;
  books = λ id. inserted-IsDeposit p id db.payments (ledger id db) st (b.books id);
}
Change-IsBooked (recorded ev) b = record { unique = b.unique; books = b.books }
Change-IsBooked (stamped now id) b = record { unique = b.unique; books = b.books }
Change-IsBooked {db} (captured charge group id p s) b = record {
  unique =
      UniqueBy-update payment_key (is_processing_row id) (set_succeeded charge) db.payments
        (λ x. refl) b.unique;
  books = λ j. captured_books charge group id j p db b.unique s (b.books j);
}

pub Changes-IsBooked : {db db' : Db} → Changes db db' → IsBooked db → IsBooked db'
Changes-IsBooked unchanged b = b
Changes-IsBooked (step cs c) b = Change-IsBooked c (Changes-IsBooked cs b)
