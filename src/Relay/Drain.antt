-- ===== src/Relay/Drain.antt =====
-- `drain` of services/pkg/outbox/outbox.go. What the bus and the database do with a row is an
-- argument, and so is which rows other replicas have locked.
use aizorix_freelancer.Base.{ℕ, String, Bool, true, false, List, [], ◌∷◌, ◌++◌, if◌then◌else◌}
use aizorix_freelancer.Relay.Outbox.{Row, Message, unpublished, mark_published, message}

-- What happens to a row: its message is lost, or is delivered though the producer reports an error,
-- or is delivered and its row cannot be marked; or all goes well.
pub data Fate : Type 0 where
  lost doubtful unmarked delivered : Fate

-- The rows in the transaction, the log of the bus, and whether the loop ran to its end.
pub record Progress : Type 0 where
  pub rows : List Row
  pub log : List Message
  pub finished : Bool

-- The table and the log of the bus.
pub record World : Type 0 where
  pub rows : List Row
  pub log : List Message

abbrev pub stop_at : List Row → List Message → Progress
stop_at rows log = record { rows = rows; log = log; finished = false }

module _ (show : ℕ → String) (now : ℕ) (source : String) (fate : ℕ → Fate) where
  -- The loop over the batch.
  unfoldable pub publish_all : List Row → List Row → List Message → Progress
  publish_all [] rows log = record { rows = rows; log = log; finished = true }
  publish_all (x ∷ xs) rows log =
      let rest =
        publish_all xs (mark_published now x.id rows) (log ++ message show source x ∷ []) in
      elim (fate x.id) [
        | lost ↦ stop_at rows log
        | doubtful ↦ stop_at rows (log ++ message show source x ∷ [])
        | unmarked ↦ stop_at rows (log ++ message show source x ∷ [])
        | delivered ↦ rest
      ]

  -- `commits` tells whether the commit succeeds; without it the rows stay, and the log does not.
  unfoldable pub drain : (ℕ → Bool) → ℕ → Bool → World → World
  unfolding publish_all
  drain locked limit commits w =
      let p = publish_all (unpublished locked limit w.rows) w.rows w.log in
      if p.finished
      then (if commits
          then record { rows = p.rows; log = p.log }
          else record { rows = w.rows; log = p.log })
      else record { rows = w.rows; log = p.log }
