-- ===== src/Payment/Service.antt =====
-- The methods of services/payment/internal/service/service.go. The ids that they draw and the
-- answer of Stripe are arguments. A webhook starts at the parsed body, after its signature has been
-- verified.
use aizorix_freelancer.Base.{ℕ, String, Option, none, some, List, [], ◌∷◌, ◌==◌, if◌then◌else◌}
use aizorix_freelancer.Base.Int.{ℤ, pos, ◌-ℤ◌, leb_ℤ}
use aizorix_freelancer.Base.Outbox.{Event, Value, text, cents, null}
use aizorix_freelancer.Base.Table.{find}
use aizorix_freelancer.Base.Tx.{Result, ok, err, Tx, pure, fail_if, ◌>>=◌, ◌>>◌}
use aizorix_freelancer.Payment.Tables.{
  Payment, AccountKind, Leg, StripeEvent, IntentResult, Db, Error, duplicate_key, bad_amount,
  stripe_failed, missing_event_id, is_processing,
}
use aizorix_freelancer.Payment.Store.{
  has_idempotency_key, insert_payment, get_payment_by_intent, mark_succeeded, write_legs,
  insert_stripe_event, mark_stripe_event_processed, enqueue,
}

abbrev pub deref : Option String → String
deref none = ""
deref (some s) = s

abbrev pub result_from_payment : Payment → IntentResult
result_from_payment p = record {
  payment_id = p.id;
  stripe_payment_intent_id = deref p.stripe_payment_intent_id;
  client_secret = "";
  status = p.status;
}

-- A lost race is read back by the key.
abbrev pub read_back : String → Db → Result Error IntentResult × Db
read_back key db =
    if key == ""
    then (err duplicate_key, db)
    else elim (find (has_idempotency_key key) db.payments) [
      | none ↦ (err duplicate_key, db)
      | some p ↦ (ok (result_from_payment p), db)
    ]

-- The transaction's end: its commit, or its rollback.
abbrev pub end_insert :
    String → String → Result Error (Payment × Db) → Db → Result Error IntentResult × Db
end_insert secret key (ok (p, db')) db = (
  ok (record {
    payment_id = p.id;
    stripe_payment_intent_id = deref p.stripe_payment_intent_id;
    client_secret = secret;
    status = p.status;
  }),
  db',
)
end_insert secret key (err duplicate_key) db = read_back key db
end_insert secret key (err e) db = (err e, db)

abbrev pub optional_key : String → Option String
optional_key key = if key == "" then none else some key

-- The call of Stripe, which answers an id and a secret, and the insert.
unfoldable pub request_intent :
    Option (String × String)
    → String
    → String
    → Option String
    → ℤ
    → String
    → String
    → Db
    → Result Error IntentResult × Db
unfolding insert_payment
request_intent none new_id payer contract_id amount currency key db = (err stripe_failed, db)
request_intent (some (intent, secret)) new_id payer contract_id amount currency key db =
    end_insert secret key
      (insert_payment new_id payer contract_id amount currency intent (optional_key key) db) db

-- The payment of the key, if there is one.
abbrev pub existing : String → Db → Option Payment
existing key db = if key == "" then none else find (has_idempotency_key key) db.payments

unfoldable pub reuse_or_request :
    Option Payment
    → Option (String × String)
    → String
    → String
    → Option String
    → ℤ
    → String
    → String
    → Db
    → Result Error IntentResult × Db
unfolding request_intent
reuse_or_request (some p) answer new_id payer contract_id amount currency key db =
    (ok (result_from_payment p), db)
reuse_or_request none answer new_id payer contract_id amount currency key db =
    request_intent answer new_id payer contract_id amount currency key db

unfoldable pub create_payment_intent :
    Option (String × String)
    → String
    → String
    → Option String
    → ℤ
    → String
    → String
    → Db
    → Result Error IntentResult × Db
unfolding reuse_or_request
create_payment_intent answer new_id payer contract_id amount currency key db =
    if leb_ℤ amount (pos 0)
    then (err bad_amount, db)
    else reuse_or_request (existing key db) answer new_id payer contract_id amount
        (if currency == "" then "USD" else currency) key db

abbrev pub deposit_leg : Payment → AccountKind → ℤ → Leg
deposit_leg p kind amount = record {
  account_kind = kind;
  contract_id = p.contract_id;
  amount_cents = amount;
  currency = p.currency;
  payment_id = some p.id;
}

abbrev pub deposit_legs : Payment → List Leg
deposit_legs p =
    deposit_leg p AccountKind.stripe_clearing (pos 0 -ℤ p.amount_cents)
    ∷ deposit_leg p AccountKind.client_funding p.amount_cents
    ∷ deposit_leg p AccountKind.client_funding (pos 0 -ℤ p.amount_cents)
    ∷ deposit_leg p AccountKind.escrow p.amount_cents
    ∷ []

abbrev pub optional : Option String → Value
optional none = null
optional (some s) = text s

abbrev pub captured_event : Payment → Event
captured_event p = record {
  aggregate_type = "payment";
  aggregate_id = p.id;
  event_type = "payment.captured";
  topic = "payment.events";
  partition_key = p.id;
  payload =
      ("payment_id", text p.id)
      ∷ ("contract_id", optional p.contract_id)
      ∷ ("amount_cents", cents p.amount_cents)
      ∷ ("currency", text p.currency)
      ∷ ("payer_id", text p.payer_id)
      ∷ [];
}

unfoldable pub write_deposit_ledger : String → Payment → Tx Db Error (Unit {0})
unfolding write_legs enqueue
write_deposit_ledger group p = do write_legs group (deposit_legs p); enqueue (captured_event p)

unfoldable pub confirm_payment : String → String → String → Tx Db Error Payment
unfolding mark_succeeded write_deposit_ledger
confirm_payment charge group id = do
  p ← mark_succeeded id charge
  write_deposit_ledger group p
  pure p

-- The `switch` on the event's type; the capture is that of `confirm_payment`, statement by statement.
unfoldable pub apply_event : String → String → StripeEvent → Tx Db Error (Unit {0})
unfolding get_payment_by_intent confirm_payment
apply_event charge group ev =
    if ev.event_type == "payment_intent.succeeded"
    then (do
      p ← get_payment_by_intent ev.object_id
      if is_processing p.status then (do confirm_payment charge group p.id; pure tt) else pure tt)
    else pure tt

unfoldable pub handle_webhook : ℕ → String → String → StripeEvent → String → Tx Db Error (Unit {0})
unfolding insert_stripe_event mark_stripe_event_processed apply_event
handle_webhook now charge group ev payload = do
  fail_if (ev.id == "") missing_event_id
  fresh ← insert_stripe_event ev.id ev.event_type payload
  if fresh then (do apply_event charge group ev; mark_stripe_event_processed now ev.id) else pure tt
