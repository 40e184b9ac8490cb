-- ===== src/Escrow/Milestones.antt =====
-- The unique index on the active allocations of a milestone: after a release none is reserved.
use aizorix_freelancer.Base.{
  String, Bool, true, false, none, some, List, [], ◌∷◌, ◌++◌, ◌≡◌, refl, ◌&&◌, arith, inl, inr,
  Bool-cases, Option-cases, eq_iff, eq_refl,
}
use aizorix_freelancer.Base.Table.{find, update, find-append, find-none_narrower}
use aizorix_freelancer.Escrow.Tables.{Allocation, Db, is_reserved, is_active}
use aizorix_freelancer.Escrow.Store.{
  is_reserved_milestone, is_active_milestone, is_reserved_row, collides, set_released,
}
use aizorix_freelancer.Escrow.Rows.{UniqueIds, id_differs}
use aizorix_freelancer.Escrow.Effects.{
  Effect, opened, claimed, deposited, allocated, paid, returned,
}

abbrev pub same_milestone : Allocation → Allocation → Bool
same_milestone x y =
    is_active x.status
    && elim x.milestone_id [ none ↦ false | some m ↦ is_active_milestone x.escrow_id m y ]

abbrev pub UniqueMilestones : List Allocation → Type 0
UniqueMilestones [] = Unit
UniqueMilestones (a ∷ rest) = (find (same_milestone a) rest ≡ none) × UniqueMilestones rest

same_milestone-sym : (x y : Allocation) → same_milestone x y ≡ true → same_milestone y x ≡ true
same_milestone-sym x y h = elim (Option-cases x.milestone_id) [
  | inl n ↦ ground arith
  | inr (m, s) ↦ elim (Option-cases y.milestone_id) [
    | inl n ↦ ground arith
    | inr (k, t) ↦ ground (
      arith,
      eq_iff x.escrow_id y.escrow_id,
      eq_iff y.escrow_id x.escrow_id,
      eq_iff k m,
      eq_iff m k,
    )
  ]
]

-- Two rows of one milestone collide.
collides_of_same : (a x : Allocation) → same_milestone a x ≡ true → collides a x ≡ true
collides_of_same a x h = elim (Option-cases a.milestone_id) [
  | inl n ↦ ground arith
  | inr (m, s) ↦ ground arith
]

UniqueMilestones-append :
    (a : Allocation) (xs : List Allocation)
    → UniqueMilestones xs
    → find (same_milestone a) xs ≡ none
    → UniqueMilestones (xs ++ a ∷ [])
UniqueMilestones-append a [] u n = (refl, tt)
UniqueMilestones-append a (x ∷ xs) u n = elim (Bool-cases (same_milestone x a)) [
  | inl t ↦ absurd (ground (arith, same_milestone-sym x a t))
  | inr f ↦ (
    rw (find-append (same_milestone x) a xs u.0, f),
    UniqueMilestones-append a xs u.1 (ground arith),
  )
]

find-none_kept :
    (test mark : Allocation → Bool) (xs : List Allocation)
    → ((y : Allocation) → mark y ≡ true → test (set_released y) ≡ true → test y ≡ true)
    → find test xs ≡ none
    → find test (update mark set_released xs) ≡ none
find-none_kept test mark [] keep n = refl
find-none_kept test mark (x ∷ xs) keep n = elim (Bool-cases (mark x)) [
  | inl t ↦ elim (Bool-cases (test (set_released x))) [
    | inl hit ↦ absurd (ground (arith, keep x t hit))
    | inr miss ↦ ground arith
  ]
  | inr f ↦ ground (arith, find-none_kept test mark xs keep)
]

same_milestone_released :
    (x y : Allocation)
    → is_reserved x.status ≡ true
    → same_milestone (set_released x) y ≡ true
    → same_milestone x y ≡ true
same_milestone_released x y r h = ground arith

same_milestone_marked :
    (id : String) (x y : Allocation)
    → is_reserved_row id y ≡ true
    → same_milestone x (set_released y) ≡ true
    → same_milestone x y ≡ true
same_milestone_marked id x y r h = elim (Option-cases x.milestone_id) [
  | inl n ↦ ground arith
  | inr (m, s) ↦ ground arith
]

reserved_of_row :
    (id : String) (x : Allocation) → is_reserved_row id x ≡ true → is_reserved x.status ≡ true
reserved_of_row id x h = ground arith

UniqueMilestones-marked :
    (id : String) (xs : List Allocation)
    → UniqueMilestones xs
    → UniqueMilestones (update (is_reserved_row id) set_released xs)
UniqueMilestones-marked id [] u = tt
UniqueMilestones-marked id (x ∷ xs) u = elim (Bool-cases (is_reserved_row id x)) [
  | inl t ↦ rw t (
    find-none_narrower (same_milestone (set_released x)) (same_milestone x) xs
        (λ y h. same_milestone_released x y (reserved_of_row id x t) h) u.0,
    u.1,
  )
  | inr f ↦ rw f (
    find-none_kept (same_milestone x) (is_reserved_row id) xs (same_milestone_marked id x) u.0,
    UniqueMilestones-marked id xs u.1,
  )
]

pub Effect-UniqueMilestones :
    {db db' : Db}
    → Effect db db'
    → UniqueMilestones db.allocations
    → UniqueMilestones db'.allocations
Effect-UniqueMilestones (opened e n m z) u = u
Effect-UniqueMilestones (claimed k n) u = u
Effect-UniqueMilestones (deposited id g contract amount e ev s p v) u = u
Effect-UniqueMilestones {db} (allocated e a s p fits n r) u =
    UniqueMilestones-append a db.allocations u
      (find-none_narrower (same_milestone a) (collides a) db.allocations (collides_of_same a) n)
Effect-UniqueMilestones {db} (paid g e e' a st ev s row v same) u =
    UniqueMilestones-marked a.id db.allocations u
Effect-UniqueMilestones (returned id g amount e st memo ev s p fits v) u = u

same_of_reserved :
    (id m : String) (x y : Allocation)
    → is_reserved_milestone id m x ≡ true
    → is_reserved_milestone id m y ≡ true
    → same_milestone x y ≡ true
same_of_reserved id m x y t r = elim (Option-cases x.milestone_id) [
  | inl n ↦ ground arith
  | inr (k, s) ↦ ground (arith, eq_iff x.escrow_id id, eq_iff k m)
]

-- After its row is marked, a milestone has no reserved row.
pub none_reserved_of_marked :
    (id m : String) (a : Allocation) (xs : List Allocation)
    → UniqueIds xs
    → UniqueMilestones xs
    → find (is_reserved_milestone id m) xs ≡ some a
    → find (is_reserved_milestone id m) (update (is_reserved_row a.id) set_released xs) ≡ none
none_reserved_of_marked id m a [] u v h = ground arith
none_reserved_of_marked id m a (x ∷ xs) u v h = elim (Bool-cases (is_reserved_milestone id m x)) [
  | inl t ↦
      let same : x ≡ a = ground arith in
      let rest =
        find-none_narrower (is_reserved_milestone id m) (same_milestone x) xs
          (λ y r. same_of_reserved id m x y t r) v.0 in
      let row : is_reserved_row a.id x ≡ true = rw (← same) (ground (arith, eq_refl x.id)) in
      rw row (rw rest (ground arith))
  | inr f ↦
      let h' : find (is_reserved_milestone id m) xs ≡ some a = ground arith in
      let other : is_reserved_row a.id x ≡ false = ground (arith, id_differs x a _ xs u.0 h') in
      rw other (rw f (none_reserved_of_marked id m a xs u.1 v.1 h'))
]
