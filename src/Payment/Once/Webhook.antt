-- ===== src/Payment/Once/Webhook.antt =====
-- `HandleWebhook` of services/payment/internal/service/service.go and repeated events.
use aizorix_freelancer.Base.{
  ℕ, String, true, false, some, List, [], ◌∷◌, ◌++◌, ◌≡◌, refl, ◌==◌, arith, inl, inr, sym, ◌∙◌,
  is_some, Option-cases, eq_refl,
}
use mathlib.Core.Path.{subst}
use aizorix_freelancer.Base.Table.{find, find-append_some, find-append, find-update_either}
use aizorix_freelancer.Base.Tx.{ok}
use aizorix_freelancer.Payment.Tables.{StripeEvent, EventRow, Db}
use aizorix_freelancer.Payment.Store.{has_event_id, set_processed, insert_stripe_event}
use aizorix_freelancer.Payment.Service.{handle_webhook}
use aizorix_freelancer.Payment.Changes.{
  Change, inserted, recorded, stamped, captured, Changes, unchanged, step, handle_webhook-eq-ok,
  apply_event-Changes, event_row,
}
use aizorix_freelancer.Payment.Requests.{Request, serve, serve-Changes}

abbrev pub HasEvent : String → Db → Type 0
HasEvent id db = (ev : EventRow) × (find (has_event_id id) db.stripe_events ≡ some ev)

Change-HasEvent : {db db' : Db} (id : String) → Change db db' → HasEvent id db → HasEvent id db'
Change-HasEvent id (inserted p n st) h = h
Change-HasEvent id (captured charge group pid p s) h = h
Change-HasEvent {db} id (recorded ev) h =
    (h.0, find-append_some (has_event_id id) ev h.0 db.stripe_events h.1)
Change-HasEvent {db} id (stamped now k) h =
    elim (find-update_either (has_event_id id) (has_event_id k) (set_processed now) h.0
      db.stripe_events (λ x. refl) h.1) [ inl e ↦ (h.0, e) | inr e ↦ (set_processed now h.0, e) ]

Changes-HasEvent : {db db' : Db} (id : String) → Changes db db' → HasEvent id db → HasEvent id db'
Changes-HasEvent id unchanged h = h
Changes-HasEvent id (step cs c) h = Change-HasEvent id c (Changes-HasEvent id cs h)

is_some-HasEvent :
    (id : String) (db : Db)
    → is_some (find (has_event_id id) db.stripe_events) ≡ true
    → HasEvent id db
is_some-HasEvent id db h = elim (Option-cases (find (has_event_id id) db.stripe_events)) [
  | inl n ↦ ground arith
  | inr (ev, s) ↦ (ev, s)
]

recorded-HasEvent :
    (ev : StripeEvent) (payload : String) (db : Db)
    → HasEvent ev.id (record db { stripe_events = db.stripe_events ++ event_row ev payload ∷ [] })
recorded-HasEvent ev payload db = elim (Option-cases (find (has_event_id ev.id) db.stripe_events)) [
  | inl n ↦ (
    event_row ev payload,
    find-append (has_event_id ev.id) (event_row ev payload) db.stripe_events n
        ∙ rw (eq_refl ev.id) refl,
  )
  | inr (r, s) ↦
      (r, find-append_some (has_event_id ev.id) (event_row ev payload) r db.stripe_events s)
]

handle_webhook-HasEvent :
    (now : ℕ) (charge group : String) (ev : StripeEvent) (payload : String) (db db' : Db)
    → handle_webhook now charge group ev payload db ≡ ok (tt, db')
    → HasEvent ev.id db'
handle_webhook-HasEvent now charge group ev payload db db' h =
    elim (handle_webhook-eq-ok now charge group ev payload db db' h) [
      | inl (seen, e) ↦ rw e (is_some-HasEvent ev.id db seen)
      | inr (mid, run, e) ↦ rw e (
          Change-HasEvent {db = mid} ev.id (stamped now ev.id) (
            Changes-HasEvent ev.id (apply_event-Changes charge group ev _ mid tt run)
              (recorded-HasEvent ev payload db)))
    ]

handle_webhook_seen :
    (now : ℕ) (charge group : String) (ev : StripeEvent) (payload : String) (db : Db)
    → (ev.id == "") ≡ false
    → HasEvent ev.id db
    → handle_webhook now charge group ev payload db ≡ ok (tt, db)
unfolding handle_webhook insert_stripe_event
handle_webhook_seen now charge group ev payload db k (r, s) = ground arith

handle_webhook_id :
    (now : ℕ) (charge group : String) (ev : StripeEvent) (payload : String) (db db' : Db)
    → handle_webhook now charge group ev payload db ≡ ok (tt, db')
    → (ev.id == "") ≡ false
unfolding handle_webhook
handle_webhook_id now charge group ev payload db db' h = ground arith

-- Once a webhook has succeeded, every other one with the same event id, whatever else it says and
-- whatever requests come between, succeeds and changes nothing.
pub handle_webhook_once :
    (now now' : ℕ) (charge group charge' group' : String) (ev ev' : StripeEvent)
    (payload payload' : String) (db db' : Db) (rs : List Request)
    → handle_webhook now charge group ev payload db ≡ ok (tt, db')
    → ev'.id ≡ ev.id
    → handle_webhook now' charge' group' ev' payload' (serve rs db') ≡ ok (tt, serve rs db')
handle_webhook_once now now' charge group charge' group' ev ev' payload payload' db db' rs h e =
    let seen =
      Changes-HasEvent ev.id (serve-Changes rs db')
        (handle_webhook-HasEvent now charge group ev payload db db' h) in
    handle_webhook_seen now' charge' group' ev' payload' (serve rs db')
      (rw e (handle_webhook_id now charge group ev payload db db' h))
      (subst (λ k. HasEvent k (serve rs db')) (sym e) seen)
