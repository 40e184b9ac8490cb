-- ===== src/Relay/Delivery.antt =====
-- What sequences of enqueued rows and of `drain` (services/pkg/outbox/outbox.go) do to the rows that
-- are marked.
use aizorix_freelancer.Base.{
  ℕ, String, Bool, true, none, some, List, [], ◌∷◌, ◌++◌, ◌≡◌, refl, arith, inl, inr, sym,
  if◌then◌else◌, is_some, Option-cases, Bool-cases,
}
use mathlib.Core.Path.{subst}
use aizorix_freelancer.Base.Table.{find, find-update_either}
use aizorix_freelancer.Base.Rows.{All, All-append, All-map, All-update_found}
use aizorix_freelancer.Relay.Outbox.{
  Row, Message, has_row_id, unpublished, set_published, mark_published, message,
}
use aizorix_freelancer.Relay.Drain.{
  Fate, lost, doubtful, unmarked, delivered, Progress, World, stop_at, publish_all, drain,
}
use aizorix_freelancer.Relay.Rows.{
  IsLogged, UniqueIds, IsRow, All-IsRow, IsLogged-append, IsLogged-last, All-unpublished,
  UniqueIds-mark, UniqueIds-append,
}

module _ (show : ℕ → String) (source : String) where
  -- A row of the batch, as the table has it now.
  abbrev IsStored : List Row → Row → Type 0
  IsStored rows x =
      (y : Row) × (find (has_row_id x.id) rows ≡ some y)
      × (message show source y ≡ message show source x)

  -- A row that is marked has its message on the bus.
  abbrev pub IsSent : List Message → Row → Type 0
  IsSent log x = is_some x.published_at ≡ true → IsLogged (message show source x) log

  abbrev pub AllSent : List Row → List Message → Type 0
  AllSent rows log = All (IsSent log) rows

  IsStored-mark :
      (now id : ℕ) (rows : List Row) (x : Row)
      → IsStored rows x
      → IsStored (mark_published now id rows) x
  IsStored-mark now id rows x (y, s, same) =
      elim (find-update_either (has_row_id x.id) (has_row_id id) (set_published now) y rows
        (λ _. refl) s) [ inl h ↦ (y, h, same) | inr h ↦ (set_published now y, h, same) ]

  AllSent-append :
      (rows : List Row) (log : List Message) (m : Message)
      → AllSent rows log
      → AllSent rows (log ++ m ∷ [])
  AllSent-append rows log m a =
      All-map (IsSent log) (IsSent (log ++ m ∷ [])) rows
        (λ x h p. IsLogged-append (message show source x) m log (h p)) a

  AllSent-mark :
      (now : ℕ) (rows : List Row) (log : List Message) (x : Row)
      → IsStored rows x
      → AllSent rows log
      → AllSent (mark_published now x.id rows) (log ++ message show source x ∷ [])
  AllSent-mark now rows log x (y, s, same) a =
      All-update_found (IsSent log) (IsSent (log ++ message show source x ∷ [])) (has_row_id x.id)
        (set_published now) y rows s
        (λ z h p. IsLogged-append (message show source z) (message show source x) log (h p))
        (λ _.
          subst (λ m. IsLogged m (log ++ message show source x ∷ [])) (sym same)
            (IsLogged-last (message show source x) log))
        a

  record IsKept (before : List Row) (p : Progress) : Type 0 where
    rows : AllSent p.rows p.log
    old : AllSent before p.log
    unique : UniqueIds p.rows

  IsKept-fate :
      (before : List Row) (f : Fate) (nothing one rest : Progress)
      → IsKept before nothing
      → IsKept before one
      → IsKept before rest
      → IsKept before
          (elim f [ lost ↦ nothing | doubtful ↦ one | unmarked ↦ one | delivered ↦ rest ])
  IsKept-fate before lost nothing one rest a b c = a
  IsKept-fate before doubtful nothing one rest a b c = b
  IsKept-fate before unmarked nothing one rest a b c = b
  IsKept-fate before delivered nothing one rest a b c = c

  -- The loop keeps the rows in the transaction, and the rows before it.
  publish_all-IsKept :
      (now : ℕ) (fate : ℕ → Fate) (xs rows before : List Row) (log : List Message)
      → All (IsStored rows) xs
      → UniqueIds rows
      → AllSent rows log
      → AllSent before log
      → IsKept before (publish_all show now source fate xs rows log)
  unfolding publish_all
  publish_all-IsKept now fate [] rows before log st u a b = record { rows = a; old = b; unique = u }
  publish_all-IsKept now fate (x ∷ xs) rows before log st u a b =
      let grown = log ++ message show source x ∷ [] in
      IsKept-fate before (fate x.id) (stop_at rows log) (stop_at rows grown)
        (publish_all show now source fate xs (mark_published now x.id rows) grown)
        (record { rows = a; old = b; unique = u })
        (record {
          rows = AllSent-append rows log (message show source x) a;
          old = AllSent-append before log (message show source x) b;
          unique = u;
        })
        (publish_all-IsKept now fate xs (mark_published now x.id rows) before grown
          (All-map (IsStored rows) (IsStored (mark_published now x.id rows)) xs
            (λ y h. IsStored-mark now x.id rows y h) st.1)
          (UniqueIds-mark now x.id rows u) (AllSent-mark now rows log x st.0 a)
          (AllSent-append before log (message show source x) b))

  pub record IsDelivered (w : World) : Type 0 where
    pub unique : UniqueIds w.rows
    pub sent : AllSent w.rows w.log

  pub drain-IsDelivered :
      (now : ℕ) (fate : ℕ → Fate) (locked : ℕ → Bool) (limit : ℕ) (commits : Bool) (w : World)
      → IsDelivered w
      → IsDelivered (drain show now source fate locked limit commits w)
  unfolding drain
  drain-IsDelivered now fate locked limit commits w d =
      let p = publish_all show now source fate (unpublished locked limit w.rows) w.rows w.log in
      let stored = All-unpublished (IsStored w.rows) locked limit w.rows (
        All-map (IsRow w.rows) (IsStored w.rows) w.rows (λ x h. (x, h, refl))
          (All-IsRow w.rows d.unique)) in
      let kept =
        publish_all-IsKept now fate (unpublished locked limit w.rows) w.rows w.rows w.log stored
          d.unique d.sent d.sent in
      elim (Bool-cases p.finished) [
        | inl f ↦ elim (Bool-cases commits) [
          | inl c ↦ rw (f, c) (record { unique = kept.unique; sent = kept.rows })
          | inr c ↦ rw (f, c) (record { unique = d.unique; sent = kept.old })
        ]
        | inr f ↦ rw f (record { unique = d.unique; sent = kept.old })
      ]

-- The work of the services and of the relay: an event is enqueued, or the outbox is drained.
pub data Step : Type 0 where
  enqueued : Row → Step
  drained : ℕ → (ℕ → Fate) → (ℕ → Bool) → ℕ → Bool → Step

-- An identity column never draws an id twice.
abbrev pub enqueue_row : Row → World → World
enqueue_row x w =
    if is_some (find (has_row_id x.id) w.rows)
    then w
    else record w { rows = w.rows ++ record x { published_at = none } ∷ [] }

module _ (show : ℕ → String) (source : String) where
  unfoldable pub take_step : Step → World → World
  unfolding drain
  take_step (enqueued x) w = enqueue_row x w
  take_step (drained now fate locked limit commits) w =
      drain show now source fate locked limit commits w

  unfoldable pub take_steps : List Step → World → World
  unfolding take_step
  take_steps [] w = w
  take_steps (s ∷ ss) w = take_steps ss (take_step s w)

  enqueue_row-IsDelivered :
      (x : Row) (w : World) → IsDelivered show source w → IsDelivered show source (enqueue_row x w)
  enqueue_row-IsDelivered x w d = elim (Option-cases (find (has_row_id x.id) w.rows)) [
    | inr (y, s) ↦ rw s d
    | inl n ↦ rw n (record {
      unique = UniqueIds-append (record x { published_at = none }) w.rows d.unique n;
      sent =
          All-append (IsSent show source w.log) (record x { published_at = none }) w.rows d.sent
            (λ p. ground (arith, p));
    })
  ]

  take_steps-IsDelivered :
      (ss : List Step) (w : World)
      → IsDelivered show source w
      → IsDelivered show source (take_steps ss w)
  unfolding take_steps
  take_steps-IsDelivered [] w d = d
  take_steps-IsDelivered (enqueued x ∷ ss) w d =
      take_steps-IsDelivered ss (enqueue_row x w) (enqueue_row-IsDelivered x w d)
  take_steps-IsDelivered (drained now fate locked limit commits ∷ ss) w d =
      take_steps-IsDelivered ss (drain show now source fate locked limit commits w)
        (drain-IsDelivered show source now fate locked limit commits w d)

  -- Whatever is enqueued and drained, in whatever order, and whatever fails in between, each row of
  -- the outbox that is marked as published has its message on the bus.
  pub take_steps-AllSent :
      (ss : List Step)
      → let w = take_steps ss (record { rows = []; log = [] }) in AllSent show source w.rows w.log
  take_steps-AllSent ss =
      (take_steps-IsDelivered ss (record { rows = []; log = [] })
        (record { unique = tt; sent = tt })).sent
