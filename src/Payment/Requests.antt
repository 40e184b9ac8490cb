-- ===== src/Payment/Requests.antt =====
-- The payment service as a state machine: each request runs one method on the tables.
use aizorix_freelancer.Base.{
  ℕ, String, Option, none, some, List, [], ◌∷◌, ◌≡◌, refl, ◌==◌, inl, inr, ap, sym, Bool-cases,
  Option-cases,
}
use mathlib.Core.Path.{subst}
use aizorix_freelancer.Base.Int.{ℤ, pos, leb_ℤ}
use aizorix_freelancer.Base.Table.{find}
use aizorix_freelancer.Base.Tx.{Result, ok, err, Tx, transact, transact-cases}
use aizorix_freelancer.Payment.Tables.{Payment, StripeEvent, Db, Error}
use aizorix_freelancer.Payment.Store.{has_id, has_idempotency_key}
use aizorix_freelancer.Payment.Service.{
  create_payment_intent, reuse_or_request, end_insert, read_back, existing, optional_key,
  confirm_payment, handle_webhook,
}
use aizorix_freelancer.Payment.Changes.{
  inserted, Changes, unchanged, step, Changes-trans, insert_payment-eq-ok, confirm_payment-Changes,
  handle_webhook-Changes,
}
use aizorix_freelancer.Payment.Books.{IsBooked, Changes-IsBooked}

-- A call of a method, with what it draws and what Stripe answers.
pub data Request : Type 0 where
  create :
      Option (String × String) → String → String → Option String → ℤ → String → String → Request
  confirm : String → String → String → Request
  webhook : ℕ → String → String → StripeEvent → String → Request

-- The tables after a request, whether it succeeds or not.
unfoldable pub handle : Request → Db → Db
handle (create answer new_id payer contract_id amount currency key) db =
    (create_payment_intent answer new_id payer contract_id amount currency key db).1
handle (confirm charge group id) db = (transact (confirm_payment charge group id) db).1
handle (webhook now charge group ev payload) db =
    (transact (handle_webhook now charge group ev payload) db).1

unfoldable pub serve : List Request → Db → Db
unfolding handle
serve [] db = db
serve (r ∷ rs) db = serve rs (handle r db)

abbrev pub empty : Db
empty = record { payments = []; stripe_events = []; transactions = []; outbox = [] }

transact-Changes :
    {A : Type 0} (m : Tx Db Error A) (db : Db)
    → ((db' : Db) (a : A) → m db ≡ ok (a, db') → Changes db db')
    → Changes db (transact m db).1
transact-Changes m db h = elim (transact-cases m db) [
  | inl (e, failed, t) ↦ let same : (transact m db).1 ≡ db = ap (λ r. r.1) t in rw same unchanged
  | inr (a, db', run, t) ↦
      let same : (transact m db).1 ≡ db' = ap (λ r. r.1) t in rw same (h db' a run)
]

read_back-same : (key : String) (db : Db) → (read_back key db).1 ≡ db
read_back-same key db = elim (Bool-cases (key == "")) [
  | inl e ↦ rw e refl
  | inr e ↦ elim (Option-cases (find (has_idempotency_key key) db.payments)) [
    | inl n ↦ rw (e, n) refl
    | inr (p, s) ↦ rw (e, s) refl
  ]
]

end_insert-Changes :
    (secret key : String) (r : Result Error (Payment × Db)) (db : Db)
    → ((p : Payment) (db' : Db) → r ≡ ok (p, db') → Changes db db')
    → Changes db (end_insert secret key r db).1
end_insert-Changes secret key (ok (p, db')) db h = h p db' refl
end_insert-Changes secret key (err Error.duplicate_key) db h = rw (read_back-same key db) unchanged
end_insert-Changes secret key (err Error.not_found) db h = unchanged
end_insert-Changes secret key (err Error.bad_amount) db h = unchanged
end_insert-Changes secret key (err Error.stripe_failed) db h = unchanged
end_insert-Changes secret key (err Error.unbalanced) db h = unchanged
end_insert-Changes secret key (err Error.missing_event_id) db h = unchanged
end_insert-Changes secret key (err Error.constraint_violation) db h = unchanged

reuse_or_request-Changes :
    (found : Option Payment) (answer : Option (String × String)) (new_id payer : String)
    (contract_id : Option String) (amount : ℤ) (currency key : String) (db : Db)
    → Changes db (reuse_or_request found answer new_id payer contract_id amount currency key db).1
unfolding reuse_or_request
reuse_or_request-Changes (some p) answer new_id payer contract_id amount currency key db = unchanged
reuse_or_request-Changes none none new_id payer contract_id amount currency key db = unchanged
reuse_or_request-Changes none (some (intent, secret)) new_id payer contract_id amount currency key
      db =
    end_insert-Changes secret key _ db (λ p db' h.
      let (fresh, same, e, free) =
        insert_payment-eq-ok new_id payer contract_id amount currency intent (optional_key key) db
          db' p h in
      rw e (
        step unchanged (
          inserted p (subst (λ q. find (has_id q.id) db.payments ≡ none) (sym same) fresh)
            (ap (λ q. q.status) same))))

pub create_payment_intent-Changes :
    (answer : Option (String × String)) (new_id payer : String) (contract_id : Option String)
    (amount : ℤ) (currency key : String) (db : Db)
    → Changes db (create_payment_intent answer new_id payer contract_id amount currency key db).1
unfolding create_payment_intent
create_payment_intent-Changes answer new_id payer contract_id amount currency key db =
    elim (Bool-cases (leb_ℤ amount (pos 0))) [
      | inl low ↦ rw low unchanged
      | inr positive ↦ rw positive (
          reuse_or_request-Changes (existing key db) answer new_id payer contract_id amount _ key
            db)
    ]

handle-Changes : (r : Request) (db : Db) → Changes db (handle r db)
unfolding handle
handle-Changes (create answer new_id payer contract_id amount currency key) db =
    create_payment_intent-Changes answer new_id payer contract_id amount currency key db
handle-Changes (confirm charge group id) db =
    transact-Changes (confirm_payment charge group id) db
      (λ db' q h. confirm_payment-Changes charge group id db db' q h)
handle-Changes (webhook now charge group ev payload) db =
    transact-Changes (handle_webhook now charge group ev payload) db
      (λ db' u h. handle_webhook-Changes now charge group ev payload db db' h)

pub serve-Changes : (rs : List Request) (db : Db) → Changes db (serve rs db)
unfolding serve
serve-Changes [] db = unchanged
serve-Changes (r ∷ rs) db = Changes-trans (handle-Changes r db) (serve-Changes rs (handle r db))

empty-IsBooked : IsBooked empty
empty-IsBooked = record { unique = tt; books = λ id. refl }

-- Whatever intents, confirmations and webhooks are served, in any order and however often: the
-- postings for a payment that has succeeded are, in order and in one group, the four of one deposit
-- of its amount over 'stripe_clearing', 'client_funding' and 'escrow'; for any other there is none.
pub serve-IsBooked : (rs : List Request) → IsBooked (serve rs empty)
serve-IsBooked rs = Changes-IsBooked (serve-Changes rs empty) empty-IsBooked
