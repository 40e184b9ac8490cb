-- ===== src/Payment/Tests.antt =====
-- Runs of the payment service, and its theorems at them.
use aizorix_freelancer.Base.{some, none, List, [], ◌∷◌, ◌≡◌, refl}
use aizorix_freelancer.Base.Int.{pos, ◌+ℤ◌, ◌-ℤ◌}
use aizorix_freelancer.Base.Tx.{ok, err, transact}
use aizorix_freelancer.Payment.Tables.{Payment, StripeEvent, not_found}
use aizorix_freelancer.Payment.Service.{
  create_payment_intent, result_from_payment, confirm_payment, handle_webhook, write_deposit_ledger,
}
use aizorix_freelancer.Payment.Books.{IsBooked}
use aizorix_freelancer.Payment.Requests.{
  Request, create, confirm, webhook, serve, empty, serve-IsBooked,
}
use aizorix_freelancer.Payment.Once.Webhook.{handle_webhook_once}
use aizorix_freelancer.Payment.Once.Confirm.{confirm_payment_once}
use aizorix_freelancer.Payment.Once.Intent.{create_payment_intent_once}

abbrev opening : List Request
opening = create (some ("pi_1", "secret")) "pay" "ann" (some "job") (pos 500) "" "key" ∷ []

abbrev succeeded_event : StripeEvent
succeeded_event = record {
  id = "evt_1";
  event_type = "payment_intent.succeeded";
  object_id = "pi_1";
}

abbrev later : List Request
later =
    create none "other" "bob" none (pos 7) "EUR" "key"
    ∷ confirm "ch_9" "g9" "pay"
    ∷ webhook 3 "ch_3" "g3"
        (record { id = "evt_2"; event_type = "payment_intent.succeeded"; object_id = "pi_1" }) "{}"
    ∷ []

serve-IsBooked_example : IsBooked (
    serve
      (create (some ("pi_1", "secret")) "pay" "ann" (some "job") (pos 500) "" "key" ∷ later)
      empty)
serve-IsBooked_example =
    serve-IsBooked
      (create (some ("pi_1", "secret")) "pay" "ann" (some "job") (pos 500) "" "key" ∷ later)

handle_webhook_once_example :
    let db =
      (transact (handle_webhook 1 "ch_1" "g1" succeeded_event "{}") (serve opening empty)).1 in
    handle_webhook 2 "ch_2" "g2" succeeded_event "{ }" (serve later db) ≡ ok (tt, serve later db)
unfolding serve create_payment_intent handle_webhook write_deposit_ledger ◌+ℤ◌ ◌-ℤ◌
handle_webhook_once_example =
    handle_webhook_once 1 2 "ch_1" "g1" "ch_2" "g2" succeeded_event succeeded_event "{}" "{ }"
      (serve opening empty) _ later refl refl

confirm_payment_once_example :
    let db = (transact (confirm_payment "ch_1" "g1" "pay") (serve opening empty)).1 in
    confirm_payment "ch_2" "g2" "pay" (serve later db) ≡ err not_found
unfolding serve create_payment_intent confirm_payment write_deposit_ledger ◌+ℤ◌ ◌-ℤ◌
confirm_payment_once_example =
    confirm_payment_once "ch_1" "g1" "ch_2" "g2" "pay" (serve opening empty) _ _ later
      (serve-IsBooked opening) refl

create_payment_intent_once_example :
    let db = serve opening empty in
    (p : Payment) × (p.id ≡ "pay")
    × (create_payment_intent none "other" "bob" none (pos 7) "EUR" "key" (serve later db)
        ≡ (ok (result_from_payment p), serve later db))
unfolding serve create_payment_intent
create_payment_intent_once_example =
    create_payment_intent_once (some ("pi_1", "secret")) none "pay" "other" "ann" "bob" (some "job")
      none (pos 500) (pos 7) "" "EUR" "key" empty _ _ later refl refl refl
