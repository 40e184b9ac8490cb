-- ===== src/Relay/Progress.antt =====
-- How many drains (services/pkg/outbox/outbox.go) the rows of the outbox take while nothing fails.
use aizorix_freelancer.Base.{
  ℕ, suc, ◌+◌, ◌≤◌, String, Bool, true, false, List, [], ◌∷◌, ◌++◌, ◌≡◌, refl, ◌⊎◌, arith, inl, inr,
  ap, if◌then◌else◌, is_some, Bool-cases, leb,
}
use aizorix_freelancer.Base.Table.{rows_by}
use aizorix_freelancer.Base.Rows.{All, All-rows_by, sum_ℕ, sum_ℕ-update}
use aizorix_freelancer.Relay.Outbox.{
  Row, Message, has_row_id, insert_by_id, by_id, first_rows, is_free, unpublished, set_published,
  mark_published, message,
}
use aizorix_freelancer.Relay.Drain.{Fate, delivered, World, publish_all, drain}
use aizorix_freelancer.Relay.Rows.{IsLogged, IsRow, UniqueIds, All-IsRow, All-by_id, All-first_rows}
use aizorix_freelancer.Relay.Delivery.{IsSent, IsDelivered, drain-IsDelivered}

-- Nothing is locked, and nothing fails.
abbrev pub unlocked : ℕ → Bool
unlocked _ = false

abbrev pub all_well : ℕ → Fate
all_well _ = delivered

abbrev pub pending_one : Row → ℕ
pending_one x = if is_free unlocked x then 1 else 0

-- How many rows are not published.
abbrev pub pending : List Row → ℕ
pending rows = sum_ℕ pending_one rows

pending-mark : (now id : ℕ) (rows : List Row) → pending (mark_published now id rows) ≤ pending rows
pending-mark now id [] = omega arith
pending-mark now id (x ∷ xs) = elim (Bool-cases (has_row_id id x)) [
  | inl e ↦ rw e (omega arith)
  | inr e ↦ rw e (omega (arith, pending-mark now id xs))
]

pending-mark_free :
    (now : ℕ) (x : Row) (rows : List Row)
    → IsRow rows x
    → is_free unlocked x ≡ true
    → pending (mark_published now x.id rows) + 1 ≡ pending rows
pending-mark_free now x rows r f =
    let moved = sum_ℕ-update pending_one (has_row_id x.id) (set_published now) x rows r in
    let one : pending_one x ≡ 1 = rw f refl in ground (arith, moved, one)

All-is_free : (test : Row → Bool) (xs : List Row) → All (λ x. test x ≡ true) (rows_by test xs)
All-is_free test [] = tt
All-is_free test (x ∷ xs) = elim (Bool-cases (test x)) [
  | inl e ↦ rw e (e, All-is_free test xs)
  | inr e ↦ rw e (All-is_free test xs)
]

both : (P Q : Row → Type 0) (xs : List Row) → All P xs → All Q xs → All (λ x. P x × Q x) xs
both P Q [] a b = tt
both P Q (x ∷ xs) a b = ((a.0, b.0), both P Q xs a.1 b.1)

-- Each row of a batch is a row of the table that is not published.
batch_rows :
    (limit : ℕ) (rows : List Row)
    → UniqueIds rows
    → All (λ x. IsRow rows x × (is_free unlocked x ≡ true)) (unpublished unlocked limit rows)
batch_rows limit rows u =
    let P = λ (x : Row). IsRow rows x × (is_free unlocked x ≡ true) in
    let free = rows_by (is_free unlocked) rows in
    All-first_rows P limit (by_id free) (
      All-by_id P free (
        both (IsRow rows) (λ x. is_free unlocked x ≡ true) free
          (All-rows_by (IsRow rows) (is_free unlocked) rows (All-IsRow rows u))
          (All-is_free (is_free unlocked) rows)))

-- A batch is empty only when nothing is pending.
not_inserted : {A : Type 0} (x : Row) (ys : List Row) → insert_by_id x ys ≡ [] → A
not_inserted x [] h = ground arith
not_inserted x (y ∷ ys) h = elim (Bool-cases (leb x.id y.id)) [
  | inl e ↦ ground arith
  | inr e ↦ ground arith
]

pending_none : (rows : List Row) → rows_by (is_free unlocked) rows ≡ [] → pending rows ≡ 0
pending_none [] h = refl
pending_none (x ∷ xs) h = elim (Bool-cases (is_free unlocked x)) [
  | inl e ↦ ground arith
  | inr e ↦ let rest = pending_none xs (ground arith) in ground (arith, rest, e)
]

first_of : (limit : ℕ) (free : List Row) → first_rows (suc limit) (by_id free) ≡ [] → free ≡ []
first_of limit [] h = refl
first_of limit (x ∷ xs) h = elim (list_cases (by_id (x ∷ xs))) [
  | inl e ↦ not_inserted x (by_id xs) e
  | inr (y, ys, e) ↦ ground (arith, ap (first_rows (suc limit)) e, h)
]
  where
    list_cases : (ys : List Row) → (ys ≡ []) ⊎ ((z : Row) × (zs : List Row) × (ys ≡ z ∷ zs))
    list_cases [] = inl refl
    list_cases (z ∷ zs) = inr (z, zs, refl)

module _ (show : ℕ → String) (source : String) where
  publish_all_well :
      (now : ℕ) (xs rows : List Row) (log : List Message)
      → let p = publish_all show now source all_well xs rows log in
        (p.finished ≡ true) × (pending p.rows ≤ pending rows)
  unfolding publish_all
  publish_all_well now [] rows log = (refl, omega arith)
  publish_all_well now (x ∷ xs) rows log =
      let (f, n) =
        publish_all_well now xs (mark_published now x.id rows)
          (log ++ message show source x ∷ []) in
      (f, omega (arith, n, pending-mark now x.id rows))

  publish_all_progress :
      (now : ℕ) (xs rows : List Row) (log : List Message)
      → All (λ x. IsRow rows x × (is_free unlocked x ≡ true)) xs
      → (xs ≡ [])
        ⊎ (pending (publish_all show now source all_well xs rows log).rows + 1 ≤ pending rows)
  unfolding publish_all
  publish_all_progress now [] rows log a = inl refl
  publish_all_progress now (x ∷ xs) rows log a =
      let (_, n) =
        publish_all_well now xs (mark_published now x.id rows)
          (log ++ message show source x ∷ []) in
      inr (omega (arith, n, pending-mark_free now x rows a.0.0 a.0.1))

  rows-drain :
      (now limit : ℕ) (w : World)
      → (drain show now source all_well unlocked limit true w).rows
        ≡ (publish_all show now source all_well
            (unpublished unlocked limit w.rows)
            w.rows
            w.log).rows
  unfolding drain
  rows-drain now limit w =
      let (f, _) = publish_all_well now (unpublished unlocked limit w.rows) w.rows w.log in
      rw f refl

  -- A drain publishes a row, or there was none.
  drain_progress :
      (now limit n : ℕ) (w : World)
      → UniqueIds w.rows
      → pending w.rows ≤ suc n
      → pending (drain show now source all_well unlocked (suc limit) true w).rows ≤ n
  drain_progress now limit n w u few =
      let batch = unpublished unlocked (suc limit) w.rows in
      let (_, less) = publish_all_well now batch w.rows w.log in
      rw (rows-drain now (suc limit) w)
        (elim (publish_all_progress now batch w.rows w.log (batch_rows (suc limit) w.rows u)) [
          | inl e ↦
              let free = rows_by (is_free unlocked) w.rows in
              let zero_now = pending_none w.rows (first_of limit free e) in
              omega (arith, less, zero_now)
          | inr m ↦ omega (arith, m, few)
        ])

  -- Drains at some times, with batches of `suc limit` rows.
  abbrev pub drain_all : ℕ → List ℕ → World → World
  drain_all limit [] w = w
  drain_all limit (now ∷ nows) w =
      drain_all limit nows (drain show now source all_well unlocked (suc limit) true w)

  drain_all-IsDelivered :
      (limit : ℕ) (nows : List ℕ) (w : World)
      → IsDelivered show source w
      → IsDelivered show source (drain_all limit nows w)
  drain_all-IsDelivered limit [] w d = d
  drain_all-IsDelivered limit (now ∷ nows) w d =
      drain_all-IsDelivered limit nows (drain show now source all_well unlocked (suc limit) true w)
        (drain-IsDelivered show source now all_well unlocked (suc limit) true w d)

  drain_all-pending :
      (limit : ℕ) (nows : List ℕ) (w : World)
      → IsDelivered show source w
      → pending w.rows ≤ sum_ℕ (λ _. 1) nows
      → pending (drain_all limit nows w).rows ≡ 0
  drain_all-pending limit [] w d few = omega (arith, few)
  drain_all-pending limit (now ∷ nows) w d few =
      drain_all-pending limit nows (drain show now source all_well unlocked (suc limit) true w)
        (drain-IsDelivered show source now all_well unlocked (suc limit) true w d)
        (drain_progress now limit (sum_ℕ (λ _. 1) nows) w d.unique (omega (arith, few)))

  All-IsLogged :
      (log : List Message) (rows : List Row)
      → pending rows ≡ 0
      → All (IsSent show source log) rows
      → All (λ x. IsLogged (message show source x) log) rows
  All-IsLogged log [] z a = tt
  All-IsLogged log (x ∷ xs) z a = elim (Bool-cases (is_some x.published_at)) [
    | inl e ↦ (a.0 e, All-IsLogged log xs (omega (arith, z)) a.1)
    | inr e ↦ let one : pending_one x ≡ 1 = rw e refl in absurd (ground (arith, one, z))
  ]

  -- From tables where each published row is on the bus: while nothing fails and nothing else holds
  -- the rows, as many drains as there are rows to publish, each with a batch of at least one row,
  -- leave no row to publish, and the message of each row is on the bus.
  pub drain_all_delivers :
      (limit : ℕ) (nows : List ℕ) (w : World)
      → IsDelivered show source w
      → pending w.rows ≤ sum_ℕ (λ _. 1) nows
      → let after = drain_all limit nows w in
        (pending after.rows ≡ 0) × All (λ x. IsLogged (message show source x) after.log) after.rows
  drain_all_delivers limit nows w d few =
      let none_left = drain_all-pending limit nows w d few in
      let after = drain_all limit nows w in
      (
        none_left,
        All-IsLogged after.log after.rows none_left (drain_all-IsDelivered limit nows w d).sent,
      )
