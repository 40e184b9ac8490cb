-- ===== src/Contract/Milestones.antt =====
-- The milestone state machine: pending, funded, submitted, approved, one step at a time.
use aizorix_freelancer.Base.{
  ℕ, String, Bool, true, false, some, List, [], ◌∷◌, ◌++◌, ◌≡◌, refl, arith, inl, inr, is_some,
  Bool-cases, text-cases, sym, ◌∙◌, ◌⊎◌,
}
use mathlib.Core.Path.{subst}
use aizorix_freelancer.Base.Table.{find, update, find-append_some, find_key-update}
use aizorix_freelancer.Contract.Tables.{
  Milestone, MilestoneStatus, pending, funded, submitted, approved, revision_requested, released,
  refunded,
}
use aizorix_freelancer.Contract.Store.{has_milestone_id, set_funded, set_submitted, set_approved}

-- The edges that the service has.
pub data Edge : MilestoneStatus → MilestoneStatus → Type 0 where
  funding : Edge pending funded
  submitting : Edge funded submitted
  approving : Edge submitted approved

-- The Stamps that a milestone has by its status; the service gives it no other status.
abbrev pub Stamps : MilestoneStatus → Bool → Bool → Bool → Type 0
Stamps pending f s a = (f ≡ false) × (s ≡ false) × (a ≡ false)
Stamps funded f s a = (f ≡ true) × (s ≡ false) × (a ≡ false)
Stamps submitted f s a = (f ≡ true) × (s ≡ true) × (a ≡ false)
Stamps approved f s a = (f ≡ true) × (s ≡ true) × (a ≡ true)
Stamps revision_requested f s a = ⊥
Stamps released f s a = ⊥
Stamps refunded f s a = ⊥

abbrev pub IsStamped : Milestone → Type 0
IsStamped m = Stamps m.status (is_some m.funded_at) (is_some m.submitted_at) (is_some m.approved_at)

abbrev pub AllStamped : List Milestone → Type 0
AllStamped [] = Unit
AllStamped (m ∷ ms) = IsStamped m × AllStamped ms

-- What the service does to the milestones.
pub data Moved (ms : List Milestone) : List Milestone → Type 0 where
  added : (m : Milestone) → m.status ≡ pending → IsStamped m → Moved ms (ms ++ m ∷ [])
  funded_at :
      (id : String) (now : ℕ) (m : Milestone)
      → find (has_milestone_id id) ms ≡ some m
      → m.status ≡ pending
      → Moved ms (update (has_milestone_id id) (set_funded now) ms)
  submitted_at :
      (id : String) (now : ℕ) (m : Milestone)
      → find (has_milestone_id id) ms ≡ some m
      → m.status ≡ funded
      → Moved ms (update (has_milestone_id id) (set_submitted now) ms)
  approved_at :
      (id : String) (now : ℕ) (m : Milestone)
      → find (has_milestone_id id) ms ≡ some m
      → m.status ≡ submitted
      → Moved ms (update (has_milestone_id id) (set_approved now) ms)

pub data Moves (ms : List Milestone) : List Milestone → Type 0 where
  unmoved : Moves ms ms
  move : {a b : List Milestone} → Moves ms a → Moved a b → Moves ms b

AllStamped-append :
    (m : Milestone) (ms : List Milestone) → IsStamped m → AllStamped ms → AllStamped (ms ++ m ∷ [])
AllStamped-append m [] h k = (h, tt)
AllStamped-append m (x ∷ ms) h k = (k.0, AllStamped-append m ms h k.1)

AllStamped-update :
    (test : Milestone → Bool) (f : Milestone → Milestone) (m : Milestone) (ms : List Milestone)
    → find test ms ≡ some m
    → (IsStamped m → IsStamped (f m))
    → AllStamped ms
    → AllStamped (update test f ms)
AllStamped-update test f m [] s h k = tt
AllStamped-update test f m (x ∷ ms) s h k = elim (Bool-cases (test x)) [
  | inl t ↦
      let same : m ≡ x = ground arith in
      let h' : IsStamped x → IsStamped (f x) = subst (λ y. IsStamped y → IsStamped (f y)) same h in
      rw t (h' k.0, k.1)
  | inr t ↦
      let s' : find test ms ≡ some m = ground arith in
      rw t (k.0, AllStamped-update test f m ms s' h k.1)
]

stamped_of :
    {s : MilestoneStatus} (m : Milestone)
    → m.status ≡ s
    → IsStamped m
    → Stamps s (is_some m.funded_at) (is_some m.submitted_at) (is_some m.approved_at)
stamped_of m e h =
    subst (λ s. Stamps s (is_some m.funded_at) (is_some m.submitted_at) (is_some m.approved_at)) e h

pub Moved-AllStamped : {a b : List Milestone} → Moved a b → AllStamped a → AllStamped b
Moved-AllStamped {a} (added m p h) k = AllStamped-append m a h k
Moved-AllStamped {a} (funded_at id now m s p) k =
    AllStamped-update (has_milestone_id id) (set_funded now) m a s
      (λ h. let q = stamped_of m p h in (refl, q.1, q.2)) k
Moved-AllStamped {a} (submitted_at id now m s p) k =
    AllStamped-update (has_milestone_id id) (set_submitted now) m a s
      (λ h. let q = stamped_of m p h in (q.0, refl, q.2)) k
Moved-AllStamped {a} (approved_at id now m s p) k =
    AllStamped-update (has_milestone_id id) (set_approved now) m a s
      (λ h. let q = stamped_of m p h in (q.0, q.1, refl)) k

pub Moves-AllStamped : {a b : List Milestone} → Moves a b → AllStamped a → AllStamped b
Moves-AllStamped unmoved k = k
Moves-AllStamped (move ms m) k = Moved-AllStamped m (Moves-AllStamped ms k)

pub Moves-trans : {a b c : List Milestone} → Moves a b → Moves b c → Moves a c
Moves-trans p unmoved = p
Moves-trans p (move q m) = move (Moves-trans p q) m

abbrev pub milestone_key : Milestone → String
milestone_key m = m.id

step_of_update :
    (id j : String) (f : Milestone → Milestone) (m x : Milestone) (a : List Milestone)
    → find (has_milestone_id id) a ≡ some m
    → find (has_milestone_id j) a ≡ some x
    → ((y : Milestone) → (f y).id ≡ y.id)
    → Edge m.status (f m).status
    → (y : Milestone) × (find (has_milestone_id j) (update (has_milestone_id id) f a) ≡ some y)
      × ((y.status ≡ x.status) ⊎ Edge x.status y.status)
step_of_update id j f m x a s h keep e = elim (text-cases id j) [
  | inl (same, t) ↦
      let s' : find (has_milestone_id j) a ≡ some m =
        subst (λ k. find (has_milestone_id k) a ≡ some m) same s in
      let one : m ≡ x = ground arith in
      (
        f m,
        find_key-update milestone_key id j f m a keep s ∙ rw t refl,
        inr (subst (λ k. Edge k.status (f m).status) one e),
      )
  | inr (ne, t) ↦ (x, find_key-update milestone_key id j f m a keep s ∙ rw (t, h) refl, inl refl)
]

-- Where a milestone stands after a move: where it was, or one edge on.
pub Moved-Edge :
    {a b : List Milestone} (j : String) (x : Milestone)
    → Moved a b
    → find (has_milestone_id j) a ≡ some x
    → (y : Milestone) × (find (has_milestone_id j) b ≡ some y)
      × ((y.status ≡ x.status) ⊎ Edge x.status y.status)
Moved-Edge {a} j x (added m p h) s = (x, find-append_some (has_milestone_id j) m x a s, inl refl)
Moved-Edge {a} j x (funded_at id now m s p) h =
    step_of_update id j (set_funded now) m x a s h (λ y. refl)
      (subst (λ t. Edge t funded) (sym p) funding)
Moved-Edge {a} j x (submitted_at id now m s p) h =
    step_of_update id j (set_submitted now) m x a s h (λ y. refl)
      (subst (λ t. Edge t submitted) (sym p) submitting)
Moved-Edge {a} j x (approved_at id now m s p) h =
    step_of_update id j (set_approved now) m x a s h (λ y. refl)
      (subst (λ t. Edge t approved) (sym p) approving)

-- Any number of edges.
pub data Along (s : MilestoneStatus) : MilestoneStatus → Type 0 where
  here : Along s s
  along : {t u : MilestoneStatus} → Along s t → Edge t u → Along s u

Along-next : {s t u : MilestoneStatus} → Along s t → (u ≡ t) ⊎ Edge t u → Along s u
Along-next {s} p (inl same) = subst (λ u. Along s u) (sym same) p
Along-next p (inr e) = along p e

pub Moves-Along :
    {a b : List Milestone} (s : MilestoneStatus) (j : String)
    → Moves a b
    → (x : Milestone) × (find (has_milestone_id j) a ≡ some x) × Along s x.status
    → (y : Milestone) × (find (has_milestone_id j) b ≡ some y) × Along s y.status
Moves-Along s j unmoved h = h
Moves-Along s j (move ms m) h =
    let (x, f, p) = Moves-Along s j ms h in
    let (y, g, q) = Moved-Edge j x m f in (y, g, Along-next p q)
