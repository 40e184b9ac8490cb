-- ===== src/Consumer/Tests.antt =====
-- The consumer on concrete deliveries.
use aizorix_freelancer.Base.{
  inl, inr, arith, eq_iff, Bool-cases, ℕ, zero, suc, none, ap, sym, ◌∙◌, ◌≡◌, ◌==◌, ◌≤◌, ◌=ℕ=◌,
  String, true, false, List, [], ◌∷◌, refl,
}
use text.Mathlib.TextLemmas.{length-append}
use Prim.Native.String.{◌++◌, count}
use mathlib.Core.Path.{subst}
use aizorix_freelancer.Base.Table.{find}
use aizorix_freelancer.Relay.Outbox.{Row, event_id, message as outbox_message}
use aizorix_freelancer.Consumer.Wire.{IsInjective, decoded, decode_message}
use aizorix_freelancer.Consumer.Process.{
  is_header, doubtful, parked, Message, Config, Luck, process,
}
use aizorix_freelancer.Consumer.Deliveries.{
  Delivery, deliver_all, times_handled, times_done, no_events,
}
use aizorix_freelancer.Consumer.Once.{deliver_all_once}
use aizorix_freelancer.Consumer.Commit.{process_commit}

abbrev cfg : Config
cfg = record { group = "notification"; dedupes = true; has_dlq = true; retries = 2 }

abbrev message : String → Message
message id = record {
  topic = "escrow.events";
  key = "c";
  value = "{}";
  headers = ("event-id", id) ∷ [];
  event_id = id;
  event_type = "escrow.funded";
}

-- The handler succeeds at its second attempt.
abbrev second : Luck
second = record {
  reads = true;
  handles = λ n. n =ℕ= 2;
  cancels = λ _. false;
  parks = parked;
  marks = true;
}

-- The handler always fails, and the dead letter is on the queue, but in doubt.
abbrev failing : Luck
failing = record second { handles = λ _. false; parks = doubtful }

abbrev deliveries : List Delivery
deliveries =
    record { luck = failing; message = message "escrow:1" }
    ∷ record { luck = second; message = message "escrow:2" }
    ∷ record { luck = second; message = message "escrow:1" }
    ∷ record { luck = second; message = message "escrow:1" }
    ∷ []

deliver_all_once_example :
    let w = deliver_all cfg deliveries no_events in
    (times_handled "escrow:1" w ≤ 1) × (times_done "escrow:1" w ≤ 2)
deliver_all_once_example =
    deliver_all_once cfg deliveries "escrow:1" refl
      ((refl, refl), ((refl, refl), ((refl, refl), ((refl, refl), tt)))) refl

process_commit_example :
    1
    ≤ times_done "escrow:3"
        (process cfg second (message "escrow:3") (deliver_all cfg deliveries no_events)).1
unfolding process
process_commit_example = process_commit cfg deliveries second (message "escrow:3") refl

-- Numbers printed as strokes.
unfoldable strokes : ℕ → String
strokes zero = ""
strokes (suc n) = "1" ++ strokes n

count-strokes : (n : ℕ) → count (strokes n) ≡ n
unfolding strokes
count-strokes zero = refl
count-strokes (suc n) = rw (length-append "1" (strokes n), count-strokes n) (omega arith)

strokes-IsInjective : IsInjective strokes
strokes-IsInjective i j h = sym (count-strokes i) ∙ ap count h ∙ count-strokes j

abbrev row : ℕ → Row
row n = record {
  id = n;
  event_type = "escrow.funded";
  topic = "escrow.events";
  partition_key = "c";
  payload = "{}";
  headers = ("trace", "t") ∷ [];
  published_at = none;
}

abbrev sent : String → List (String × String)
sent id = ("event-type", "escrow.funded") ∷ ("trace", "t") ∷ ("event-id", id) ∷ []

find-sent :
    (n : ℕ) (name : String)
    → find (is_header name) (sent (event_id strokes "escrow" n))
      ≡ find (is_header name) (outbox_message strokes "escrow" (row n)).headers
find-sent n name = elim (Bool-cases ("event-type" == name)) [
  | inl e ↦
      subst
        (λ t.
          find (is_header t) (sent (event_id strokes "escrow" n))
          ≡ find (is_header t) (outbox_message strokes "escrow" (row n)).headers)
        ((eq_iff "event-type" name).0 e) refl
  | inr e ↦ rw e refl
]

decode_message_example :
    ((decoded strokes "escrow" (row 2) (sent "escrow:11")).event_id ≡ "escrow:11")
    × ((decoded strokes "escrow" (row 2) (sent "escrow:11")).event_type ≡ "escrow.funded")
    × (((decoded strokes "escrow" (row 2) (sent "escrow:11")).event_id
          == (decoded strokes "escrow" (row 3) (sent "escrow:111")).event_id)
        ≡ false)
unfolding strokes
decode_message_example =
    decode_message strokes "escrow" (row 2) (row 3) (sent "escrow:11") (sent "escrow:111")
      strokes-IsInjective ((refl, (refl, (refl, tt))), find-sent 2)
      ((refl, (refl, (refl, tt))), find-sent 3)
