-- ===== src/Consumer/Deliveries.antt =====
-- Messages of services/pkg/kafka/consumer.go that are delivered again, and how often they are done.
use aizorix_freelancer.Base.{
  ℕ, ◌+◌, String, true, false, List, [], ◌∷◌, ◌≡◌, refl, ◌==◌, inl, inr, if◌then◌else◌,
  Option-cases, Bool-cases, eq_refl,
}
use aizorix_freelancer.Base.Table.{find, find-append, find-append_some}
use aizorix_freelancer.Base.Rows.{sum_ℕ}
use aizorix_freelancer.Consumer.Process.{
  Message, Config, Luck, Parking, unparked, doubtful, parked, World, is_event, already_processed,
  mark_processed, process,
}

-- One delivery of a message.
pub record Delivery : Type 0 where
  pub luck : Luck
  pub message : Message

-- The tables after some deliveries to one group, in order.
abbrev pub deliver_all : Config → List Delivery → World → World
deliver_all cfg [] w = w
deliver_all cfg (d ∷ ds) w = deliver_all cfg ds (process cfg d.luck d.message w).1

abbrev pub same_event : String → Message → ℕ
same_event id m = if m.event_id == id then 1 else 0

-- How often an event was handled.
abbrev pub times_handled : String → World → ℕ
times_handled id w = sum_ℕ (same_event id) w.handled

-- How often an event was handled or dead-lettered.
abbrev pub times_done : String → World → ℕ
times_done id w = sum_ℕ (same_event id) w.handled + sum_ℕ (same_event id) w.dead

abbrev pub is_doubtful : Parking → ℕ
is_doubtful unparked = 0
is_doubtful doubtful = 1
is_doubtful parked = 0

-- A delivery of an event with a dead-letter queue that is in doubt.
abbrev pub doubt : String → Delivery → ℕ
doubt id d = if d.message.event_id == id then is_doubtful d.luck.parks else 0

-- How many deliveries of an event have a dead letter in doubt.
abbrev pub doubts : String → List Delivery → ℕ
doubts id ds = sum_ℕ (doubt id) ds

abbrev pub no_events : World
no_events = record { processed = []; handled = []; dead = [] }

pub marked :
    (group id j : String) (w : World)
    → already_processed group id w ≡ false
    → already_processed group j (mark_processed group id w)
      ≡ (if id == j then true else already_processed group j w)
marked group id j w n = rw n (elim (Option-cases (find (is_event group j) w.processed)) [
  | inl k ↦
      rw (find-append (is_event group j) (group, id) w.processed k, eq_refl group, k)
        (elim (Bool-cases (id == j)) [ inl e ↦ rw e refl | inr e ↦ rw e refl ])
  | inr (q, s) ↦
      rw (find-append_some (is_event group j) (group, id) q w.processed s, s)
        (elim (Bool-cases (id == j)) [ inl e ↦ rw e refl | inr e ↦ rw e refl ])
])

pub times_done-mark_processed :
    (group id j : String) (w : World) → times_done j (mark_processed group id w) ≡ times_done j w
times_done-mark_processed group id j w = elim (Bool-cases (already_processed group id w)) [
  | inl e ↦ rw e refl
  | inr e ↦ rw e refl
]

pub times_handled-mark_processed :
    (group id j : String) (w : World)
    → times_handled j (mark_processed group id w) ≡ times_handled j w
times_handled-mark_processed group id j w = elim (Bool-cases (already_processed group id w)) [
  | inl e ↦ rw e refl
  | inr e ↦ rw e refl
]
