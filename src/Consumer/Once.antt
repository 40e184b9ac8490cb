-- ===== src/Consumer/Once.antt =====
-- How often `process` of services/pkg/kafka/consumer.go does an event.
use aizorix_freelancer.Base.{
  ℕ, ◌+◌, ◌≤◌, String, Bool, true, false, List, [], ◌∷◌, ◌++◌, ◌≡◌, refl, ◌==◌, ◌&&◌, arith, inl,
  inr, ap, sym, ◌∙◌, if◌then◌else◌, is_some, Bool-cases, eq_iff,
}
use mathlib.Core.Path.{subst}
use aizorix_freelancer.Base.Table.{find}
use aizorix_freelancer.Base.Rows.{sum_ℕ-append, All}
use aizorix_freelancer.Consumer.Process.{
  Message, Config, Luck, Parking, unparked, doubtful, parked, add_dead, park, World, Outcome,
  succeeded, failed, cancelled, attempts, is_event, already_processed, mark_processed,
  dedupes_message, mark, conclude, process,
}
use aizorix_freelancer.Consumer.Deliveries.{
  Delivery, deliver_all, same_event, times_done, no_events, marked, times_done-mark_processed,
  times_handled, times_handled-mark_processed, is_doubtful, doubt, doubts,
}

abbrev pub once_if : Bool → ℕ
once_if b = if b then 1 else 0

-- Each event was handled once at most, and never before it is marked, and done once and as often as
-- its dead letters were in doubt at most.
abbrev pub IsBounded : Config → (String → ℕ) → World → Type 0
IsBounded cfg k w =
    (id : String)
    → (id == "") ≡ false
    → (times_handled id w ≤ once_if (already_processed cfg.group id w))
      × (times_done id w ≤ once_if (already_processed cfg.group id w) + k id)

-- The Deduper is there and its queries succeed.
abbrev pub IsReliable : Delivery → Type 0
IsReliable d = (d.luck.reads ≡ true) × (d.luck.marks ≡ true)

-- A message was done once more, and no event was marked.
record IsMore (m : Message) (w done_once : World) : Type 0 where
  same : done_once.processed ≡ w.processed
  handled : (id : String) → times_handled id done_once ≤ times_handled id w + same_event id m
  done : (id : String) → times_done id done_once ≡ times_done id w + same_event id m

handled-IsMore : (m : Message) (w : World) → IsMore m w (record w { handled = w.handled ++ m ∷ [] })
handled-IsMore m w = record {
  same = refl;
  handled = λ id. rw (sum_ℕ-append (same_event id) m w.handled) (omega arith);
  done = λ id. rw (sum_ℕ-append (same_event id) m w.handled) (omega arith);
}

add_dead-IsMore : (m : Message) (w : World) → IsMore m w (add_dead m w)
add_dead-IsMore m w = record {
  same = refl;
  handled = λ id. omega arith;
  done = λ id. rw (sum_ℕ-append (same_event id) m w.dead) (omega arith);
}

already_processed-same :
    (group id : String) (w w' : World)
    → w'.processed ≡ w.processed
    → already_processed group id w' ≡ already_processed group id w
already_processed-same group id w w' same = ap (λ ps. is_some (find (is_event group id) ps)) same

-- The mark of a message that was done once more.
mark-IsBounded :
    (cfg : Config) (k : String → ℕ) (luck : Luck) (m : Message) (w done_once : World)
    → cfg.dedupes ≡ true
    → luck.marks ≡ true
    → (m.event_id == "") ≡ false
    → already_processed cfg.group m.event_id w ≡ false
    → IsMore m w done_once
    → IsBounded cfg k w
    → IsBounded cfg k (mark cfg luck m done_once)
mark-IsBounded cfg k luck m w done_once d r ne n more e id h =
    let fresh : already_processed cfg.group m.event_id done_once ≡ false =
      already_processed-same cfg.group m.event_id w done_once more.same ∙ n in
    let kept = already_processed-same cfg.group id w done_once more.same in
    let after = marked cfg.group m.event_id id done_once fresh in
    let marks : mark cfg luck m done_once ≡ mark_processed cfg.group m.event_id done_once =
      rw (d, ne, r) refl in
    let done = times_done-mark_processed cfg.group m.event_id id done_once in
    let handled = times_handled-mark_processed cfg.group m.event_id id done_once in
    let more_done = more.done id in
    let more_handled = more.handled id in
    let before = e id h in
    subst
      (λ v.
        (times_handled id v ≤ once_if (already_processed cfg.group id v))
        × (times_done id v ≤ once_if (already_processed cfg.group id v) + k id))
      (sym marks)
      (elim (Bool-cases (m.event_id == id)) [
        | inl q ↦
            let free : already_processed cfg.group id w ≡ false =
              ap (λ j. already_processed cfg.group j w) (sym ((eq_iff m.event_id id).0 q)) ∙ n in
            (
              ground (arith, before, free, after, q, handled, more_handled),
              ground (arith, before, free, after, q, done, more_done),
            )
        | inr q ↦ (
          ground (arith, before, after, kept, q, handled, more_handled),
          ground (arith, before, after, kept, q, done, more_done),
        )
      ])

-- A message without an event id counts for no event.
not_anonymous :
    (m : Message) (id : String)
    → (m.event_id == "") ≡ true
    → (id == "") ≡ false
    → (m.event_id == id) ≡ false
not_anonymous m id ne h =
    ap (λ t. t == id) ((eq_iff m.event_id "").0 ne) ∙ ground (arith, eq_iff "" id, eq_iff id "", h)

-- It is not marked.
anonymous-IsBounded :
    (cfg : Config) (k : String → ℕ) (luck : Luck) (m : Message) (w done_once : World)
    → (m.event_id == "") ≡ true
    → IsMore m w done_once
    → IsBounded cfg k w
    → IsBounded cfg k (mark cfg luck m done_once)
anonymous-IsBounded cfg k luck m w done_once ne more e id h =
    let unmarked : mark cfg luck m done_once ≡ done_once = elim (Bool-cases cfg.dedupes) [
      | inl d ↦ rw (d, ne) refl
      | inr d ↦ rw d refl
    ] in
    let kept = already_processed-same cfg.group id w done_once more.same in
    let other = not_anonymous m id ne h in
    let before = e id h in
    let more_done = more.done id in
    let more_handled = more.handled id in
    subst
      (λ v.
        (times_handled id v ≤ once_if (already_processed cfg.group id v))
        × (times_done id v ≤ once_if (already_processed cfg.group id v) + k id))
      (sym unmarked)
      (
        ground (arith, before, kept, other, more_handled),
        ground (arith, before, kept, other, more_done),
      )

done_again-IsBounded :
    (cfg : Config) (k : String → ℕ) (luck : Luck) (m : Message) (w done_once : World)
    → cfg.dedupes ≡ true
    → luck.marks ≡ true
    → ((m.event_id == "") ≡ false → already_processed cfg.group m.event_id w ≡ false)
    → IsMore m w done_once
    → IsBounded cfg k w
    → IsBounded cfg k (mark cfg luck m done_once)
done_again-IsBounded cfg k luck m w done_once d r n more e = elim (Bool-cases (m.event_id == "")) [
  | inl a ↦ anonymous-IsBounded cfg k luck m w done_once a more e
  | inr a ↦ mark-IsBounded cfg k luck m w done_once d r a (n a) more e
]

IsBounded-grows :
    (cfg : Config) (k extra : String → ℕ) (w : World)
    → IsBounded cfg k w
    → IsBounded cfg (λ id. k id + extra id) w
IsBounded-grows cfg k extra w e id h =
    let before = e id h in (before.0, let b = before.1 in omega (arith, b))

park-IsBounded :
    (cfg : Config) (k : String → ℕ) (luck : Luck) (m : Message) (w : World) (parking : Parking)
    → cfg.dedupes ≡ true
    → luck.marks ≡ true
    → ((m.event_id == "") ≡ false → already_processed cfg.group m.event_id w ≡ false)
    → IsBounded cfg k w
    → IsBounded cfg
        (λ id. k id + (if m.event_id == id then is_doubtful parking else 0))
        (park cfg luck m w parking).1
park-IsBounded cfg k luck m w unparked d r n e = IsBounded-grows cfg k _ w e
park-IsBounded cfg k luck m w doubtful d r n e = λ id h.
    let before = e id h in
    let more = (add_dead-IsMore m w).done id in (before.0, ground (arith, before, more))
park-IsBounded cfg k luck m w parked d r n e =
    IsBounded-grows cfg k _ (mark cfg luck m (add_dead m w))
      (done_again-IsBounded cfg k luck m w (add_dead m w) d r n (add_dead-IsMore m w) e)

conclude-IsBounded :
    (cfg : Config) (k : String → ℕ) (luck : Luck) (m : Message) (w : World) (o : Outcome)
    → cfg.dedupes ≡ true
    → luck.marks ≡ true
    → ((m.event_id == "") ≡ false → already_processed cfg.group m.event_id w ≡ false)
    → IsBounded cfg k w
    → IsBounded cfg
        (λ id. k id + doubt id (record { luck = luck; message = m }))
        (conclude cfg luck m w o).1
conclude-IsBounded cfg k luck m w succeeded d r n e = IsBounded-grows cfg k _ _ (
    done_again-IsBounded cfg k luck m w (record w { handled = w.handled ++ m ∷ [] }) d r n
      (handled-IsMore m w) e)
conclude-IsBounded cfg k luck m w failed d r n e = elim (Bool-cases cfg.has_dlq) [
  | inl q ↦ rw q (park-IsBounded cfg k luck m w luck.parks d r n e)
  | inr q ↦ rw q (IsBounded-grows cfg k _ w e)
]
conclude-IsBounded cfg k luck m w cancelled d r n e = IsBounded-grows cfg k _ w e

process-IsBounded :
    (cfg : Config) (k : String → ℕ) (luck : Luck) (m : Message) (w : World)
    → cfg.dedupes ≡ true
    → luck.reads ≡ true
    → luck.marks ≡ true
    → IsBounded cfg k w
    → IsBounded cfg
        (λ id. k id + doubt id (record { luck = luck; message = m }))
        (process cfg luck m w).1
unfolding process
process-IsBounded cfg k luck m w d reads r e =
    let more : String → ℕ = λ id. k id + doubt id (record { luck = luck; message = m }) in
    elim (Bool-cases
      (dedupes_message cfg m && (luck.reads && already_processed cfg.group m.event_id w))) [
        | inl q ↦
            let same : process cfg luck m w ≡ (true, w) = rw q refl in
            subst (λ v. IsBounded cfg more v.1) (sym same) (IsBounded-grows cfg k _ w e)
        | inr q ↦
            let same : process cfg luck m w ≡ conclude cfg luck m w (attempts luck 1 cfg.retries) =
              rw q refl in
            subst (λ v. IsBounded cfg more v.1) (sym same)
              (conclude-IsBounded cfg k luck m w (attempts luck 1 cfg.retries) d r
                (λ a. ground (arith, d, reads, a, q)) e)
      ]

deliver_all-IsBounded :
    (cfg : Config) (k : String → ℕ) (ds : List Delivery) (w : World)
    → cfg.dedupes ≡ true
    → All IsReliable ds
    → IsBounded cfg k w
    → IsBounded cfg (λ id. k id + doubts id ds) (deliver_all cfg ds w)
deliver_all-IsBounded cfg k [] w d r e = IsBounded-grows cfg k (λ _. 0) w e
deliver_all-IsBounded cfg k (x ∷ ds) w d r e = λ id h.
    let (handled, done) =
      deliver_all-IsBounded cfg (λ j. k j + doubt j x) ds (process cfg x.luck x.message w).1 d r.1
        (process-IsBounded cfg k x.luck x.message w d r.0.0 r.0.1 e) id h in
    (handled, omega (arith, done))

-- With a Deduper whose queries succeed: however messages are delivered and delivered again, and
-- whatever the handler and the cancellations do, an event with an id is handled at most once in all,
-- and it is handled or dead-lettered at most once in all, plus once for each of its deliveries where
-- a dead letter would be on the queue though the producer reports an error.
pub deliver_all_once :
    (cfg : Config) (ds : List Delivery) (id : String)
    → cfg.dedupes ≡ true
    → All IsReliable ds
    → (id == "") ≡ false
    → let w = deliver_all cfg ds no_events in
      (times_handled id w ≤ 1) × (times_done id w ≤ 1 + doubts id ds)
deliver_all_once cfg ds id d r n =
    let w = deliver_all cfg ds no_events in
    let (handled, done) =
      deliver_all-IsBounded cfg (λ _. 0) ds no_events d r (λ _ _. (omega arith, omega arith)) id
        n in
    elim (Bool-cases (already_processed cfg.group id w)) [
      | inl q ↦ (ground (arith, handled, q), ground (arith, done, q))
      | inr q ↦ (ground (arith, handled, q), ground (arith, done, q))
    ]
