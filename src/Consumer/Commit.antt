-- ===== src/Consumer/Commit.antt =====
-- What a committed offset of services/pkg/kafka/consumer.go says of its event.
use aizorix_freelancer.Base.{
  ◌+◌, ◌≤◌, String, true, List, [], ◌∷◌, ◌++◌, ◌≡◌, ◌⊎◌, refl, ◌==◌, ◌&&◌, arith, inl, inr, ap, sym,
  ◌∙◌, is_some, Bool-cases, eq_refl,
}
use mathlib.Core.Path.{subst}
use aizorix_freelancer.Base.Table.{find}
use aizorix_freelancer.Base.Rows.{sum_ℕ-append}
use aizorix_freelancer.Consumer.Process.{
  Message, Config, Luck, Parking, unparked, doubtful, parked, add_dead, park, World, Outcome,
  succeeded, failed, cancelled, attempts, is_event, already_processed, mark_processed,
  dedupes_message, mark, conclude, process,
}
use aizorix_freelancer.Consumer.Deliveries.{
  Delivery, deliver_all, same_event, times_done, no_events, marked, times_done-mark_processed,
}

times_done-mark :
    (cfg : Config) (luck : Luck) (m : Message) (id : String) (w : World)
    → times_done id (mark cfg luck m w) ≡ times_done id w
times_done-mark cfg luck m id w = elim (Bool-cases (dedupes_message cfg m && luck.marks)) [
  | inl e ↦ rw e (times_done-mark_processed cfg.group m.event_id id w)
  | inr e ↦ rw e refl
]

already_processed-mark :
    (cfg : Config) (luck : Luck) (m : Message) (id : String) (w : World)
    → already_processed cfg.group id (mark cfg luck m w) ≡ true
    → (already_processed cfg.group id w ≡ true) ⊎ ((m.event_id == id) ≡ true)
already_processed-mark cfg luck m id w p = elim (Bool-cases (dedupes_message cfg m && luck.marks)) [
  | inr e ↦
      let same : mark cfg luck m w ≡ w = rw e refl in
      inl (ap (λ v. already_processed cfg.group id v) (sym same) ∙ p)
  | inl e ↦
      let same : mark cfg luck m w ≡ mark_processed cfg.group m.event_id w = rw e refl in
      let p' : already_processed cfg.group id (mark_processed cfg.group m.event_id w) ≡ true =
        ap (λ v. already_processed cfg.group id v) (sym same) ∙ p in
      elim (Bool-cases (already_processed cfg.group m.event_id w)) [
        | inl a ↦
            let still : mark_processed cfg.group m.event_id w ≡ w = rw a refl in
            inl (ap (λ v. already_processed cfg.group id v) (sym still) ∙ p')
        | inr a ↦
            let after = marked cfg.group m.event_id id w a in
            elim (Bool-cases (m.event_id == id)) [
              | inl q ↦ inr q
              | inr q ↦ inl (ground (arith, after, q, p'))
            ]
      ]
]

-- Each event that is marked was done.
abbrev pub IsJustified : Config → World → Type 0
IsJustified cfg w = (id : String) → already_processed cfg.group id w ≡ true → 1 ≤ times_done id w

mark-IsJustified :
    (cfg : Config) (luck : Luck) (m : Message) (w done_once : World)
    → done_once.processed ≡ w.processed
    → ((id : String) → times_done id done_once ≡ times_done id w + same_event id m)
    → IsJustified cfg w
    → IsJustified cfg (mark cfg luck m done_once)
mark-IsJustified cfg luck m w done_once same more e id p =
    let kept : already_processed cfg.group id done_once ≡ already_processed cfg.group id w =
      ap (λ ps. is_some (find (is_event cfg.group id) ps)) same in
    let times = times_done-mark cfg luck m id done_once in
    let grown = more id in
    elim (already_processed-mark cfg luck m id done_once p) [
      | inl q ↦ let before = e id (sym kept ∙ q) in omega (arith, times, grown, before)
      | inr q ↦ let one : same_event id m ≡ 1 = rw q refl in omega (arith, times, grown, one)
    ]

grown-IsJustified :
    (cfg : Config) (m : Message) (w : World) → IsJustified cfg w → IsJustified cfg (add_dead m w)
grown-IsJustified cfg m w e id p =
    let before = e id p in
    let grown = sum_ℕ-append (same_event id) m w.dead in omega (arith, before, grown)

park-IsJustified :
    (cfg : Config) (luck : Luck) (m : Message) (w : World) (parking : Parking)
    → IsJustified cfg w
    → IsJustified cfg (park cfg luck m w parking).1
park-IsJustified cfg luck m w unparked e = e
park-IsJustified cfg luck m w doubtful e = grown-IsJustified cfg m w e
park-IsJustified cfg luck m w parked e =
    mark-IsJustified cfg luck m w (add_dead m w) refl
      (λ id. rw (sum_ℕ-append (same_event id) m w.dead) (omega arith)) e

conclude-IsJustified :
    (cfg : Config) (luck : Luck) (m : Message) (w : World) (o : Outcome)
    → IsJustified cfg w
    → IsJustified cfg (conclude cfg luck m w o).1
conclude-IsJustified cfg luck m w succeeded e =
    mark-IsJustified cfg luck m w (record w { handled = w.handled ++ m ∷ [] }) refl
      (λ id. rw (sum_ℕ-append (same_event id) m w.handled) (omega arith)) e
conclude-IsJustified cfg luck m w failed e = elim (Bool-cases cfg.has_dlq) [
  | inl q ↦ rw q (park-IsJustified cfg luck m w luck.parks e)
  | inr q ↦ rw q e
]
conclude-IsJustified cfg luck m w cancelled e = e

park_commit :
    (cfg : Config) (luck : Luck) (m : Message) (w : World) (parking : Parking)
    → (park cfg luck m w parking).0 ≡ true
    → 1 ≤ times_done m.event_id (park cfg luck m w parking).1
park_commit cfg luck m w unparked c = ground arith
park_commit cfg luck m w doubtful c = ground arith
park_commit cfg luck m w parked c =
    let times = times_done-mark cfg luck m m.event_id (add_dead m w) in
    let grown = sum_ℕ-append (same_event m.event_id) m w.dead in
    let one : same_event m.event_id m ≡ 1 = rw (eq_refl m.event_id) refl in
    omega (arith, times, grown, one)

conclude_commit :
    (cfg : Config) (luck : Luck) (m : Message) (w : World) (o : Outcome)
    → (conclude cfg luck m w o).0 ≡ true
    → 1 ≤ times_done m.event_id (conclude cfg luck m w o).1
conclude_commit cfg luck m w succeeded c =
    let times =
      times_done-mark cfg luck m m.event_id (record w { handled = w.handled ++ m ∷ [] }) in
    let grown = sum_ℕ-append (same_event m.event_id) m w.handled in
    let one : same_event m.event_id m ≡ 1 = rw (eq_refl m.event_id) refl in
    omega (arith, times, grown, one)
conclude_commit cfg luck m w failed c = elim (Bool-cases cfg.has_dlq) [
  | inl q ↦
      let same : conclude cfg luck m w failed ≡ park cfg luck m w luck.parks = rw q refl in
      subst (λ v. 1 ≤ times_done m.event_id v.1) (sym same)
        (park_commit cfg luck m w luck.parks (ap (λ v. v.0) (sym same) ∙ c))
  | inr q ↦ ground arith
]
conclude_commit cfg luck m w cancelled c = ground arith

process_cases :
    (cfg : Config) (luck : Luck) (m : Message) (w : World)
    → ((process cfg luck m w ≡ (true, w)) × (already_processed cfg.group m.event_id w ≡ true))
      ⊎ (process cfg luck m w ≡ conclude cfg luck m w (attempts luck 1 cfg.retries))
unfolding process
process_cases cfg luck m w =
    elim (Bool-cases
      (dedupes_message cfg m && (luck.reads && already_processed cfg.group m.event_id w))) [
        | inl q ↦ inl (rw q refl, ground arith)
        | inr q ↦ inr (rw q refl)
      ]

process-IsJustified :
    (cfg : Config) (luck : Luck) (m : Message) (w : World)
    → IsJustified cfg w
    → IsJustified cfg (process cfg luck m w).1
process-IsJustified cfg luck m w e = elim (process_cases cfg luck m w) [
  | inl (same, _) ↦ subst (λ v. IsJustified cfg v.1) (sym same) e
  | inr same ↦
      subst (λ v. IsJustified cfg v.1) (sym same)
        (conclude-IsJustified cfg luck m w (attempts luck 1 cfg.retries) e)
]

deliver_all-IsJustified :
    (cfg : Config) (ds : List Delivery) (w : World)
    → IsJustified cfg w
    → IsJustified cfg (deliver_all cfg ds w)
deliver_all-IsJustified cfg [] w e = e
deliver_all-IsJustified cfg (x ∷ ds) w e =
    deliver_all-IsJustified cfg ds (process cfg x.luck x.message w).1
      (process-IsJustified cfg x.luck x.message w e)

-- Whatever has been delivered and whatever has failed: when the offset of a message is committed,
-- its event has been handled or dead-lettered, by this delivery or by one before.
pub process_commit :
    (cfg : Config) (ds : List Delivery) (luck : Luck) (m : Message)
    → let w = deliver_all cfg ds no_events in
      (process cfg luck m w).0 ≡ true → 1 ≤ times_done m.event_id (process cfg luck m w).1
process_commit cfg ds luck m c =
    let w = deliver_all cfg ds no_events in
    elim (process_cases cfg luck m w) [
      | inl (same, p) ↦
          subst (λ v. 1 ≤ times_done m.event_id v.1) (sym same)
            (deliver_all-IsJustified cfg ds no_events (λ _ q. ground (arith, q)) m.event_id p)
      | inr same ↦
          subst (λ v. 1 ≤ times_done m.event_id v.1) (sym same)
            (conclude_commit cfg luck m w (attempts luck 1 cfg.retries)
              (ap (λ v. v.0) (sym same) ∙ c))
    ]
