-- ===== src/Escrow/Valid/Invariant.antt =====
-- The well-formedness of the tables of services/escrow/internal/store/store.go.
use aizorix_freelancer.Base.{
  String, Bool, some, List, [], ◌∷◌, ◌++◌, ◌≡◌, ◌==◌, ◌&&◌, arith, Bool-cases, inl, inr,
}
use aizorix_freelancer.Base.Int.{pos, ◌≤ℤ◌, ◌<ℤ◌, int_laws}
use aizorix_freelancer.Base.Table.{find, update, sum_by}
use aizorix_freelancer.Escrow.Tables.{Allocation, Db, is_reserved}
use aizorix_freelancer.Escrow.Store.{reserved_for, is_reserved_milestone, set_released}
use aizorix_freelancer.Escrow.Rows.{UniqueIds, UniqueIds-append, UniqueIds-marked, has_row_id-none}
use aizorix_freelancer.Escrow.Milestones.{Effect-UniqueMilestones}
use aizorix_freelancer.Escrow.Effects.{
  Effect, opened, claimed, deposited, allocated, paid, returned, Effects, unchanged, step,
}
use aizorix_freelancer.Escrow.Valid.Covered.{AllPositive, IsValid, Effect-covered}

Effect-UniqueIds :
    {db db' : Db} → Effect db db' → UniqueIds db.allocations → UniqueIds db'.allocations
Effect-UniqueIds (opened e n m z) u = u
Effect-UniqueIds (claimed k n) u = u
Effect-UniqueIds (deposited id g contract amount e ev s p v) u = u
Effect-UniqueIds {db} (allocated e a s p fits n r) u =
    UniqueIds-append a db.allocations u (has_row_id-none a db.allocations n)
Effect-UniqueIds {db} (paid g e e' a st ev s row v same) u = UniqueIds-marked _ db.allocations u
Effect-UniqueIds (returned id g amount e st memo ev s p fits v) u = u

AllPositive-append :
    (a : Allocation) (xs : List Allocation)
    → pos 0 <ℤ a.amount_cents
    → AllPositive xs
    → AllPositive (xs ++ a ∷ [])
AllPositive-append a [] p h = (p, tt)
AllPositive-append a (x ∷ xs) p h = (h.0, AllPositive-append a xs p h.1)

AllPositive-marked :
    (mark : Allocation → Bool) (xs : List Allocation)
    → AllPositive xs
    → AllPositive (update mark set_released xs)
AllPositive-marked mark [] h = tt
AllPositive-marked mark (x ∷ xs) h = elim (Bool-cases (mark x)) [
  | inl t ↦ rw t (h.0, h.1)
  | inr f ↦ rw f (h.0, AllPositive-marked mark xs h.1)
]

Effect-positive :
    {db db' : Db} → Effect db db' → AllPositive db.allocations → AllPositive db'.allocations
Effect-positive (opened e n m z) u = u
Effect-positive (claimed k n) u = u
Effect-positive (deposited id g contract amount e ev s p v) u = u
Effect-positive {db} (allocated e a s p fits n r) u = AllPositive-append a db.allocations p u
Effect-positive {db} (paid g e e' a st ev s row v same) u = AllPositive-marked _ db.allocations u
Effect-positive (returned id g amount e st memo ev s p fits v) u = u

sum_nonneg :
    (j : String) (xs : List Allocation) → AllPositive xs → pos 0 ≤ℤ sum_by (reserved_for j) xs
sum_nonneg j [] h = omega arith
sum_nonneg j (x ∷ xs) h = elim (Bool-cases (x.escrow_id == j && is_reserved x.status)) [
  | inl t ↦ let rest = sum_nonneg j xs h.1 in let first = h.0 in rw t (omega int_laws)
  | inr f ↦ let rest = sum_nonneg j xs h.1 in rw f (omega int_laws)
]

-- A reserved row is part of its escrow's reserved sum.
pub reserved-le-sum :
    (j m : String) (a : Allocation) (xs : List Allocation)
    → AllPositive xs
    → find (is_reserved_milestone j m) xs ≡ some a
    → a.amount_cents ≤ℤ sum_by (reserved_for j) xs
reserved-le-sum j m a [] h s = ground arith
reserved-le-sum j m a (x ∷ xs) h s = elim (Bool-cases (is_reserved_milestone j m x)) [
  | inl t ↦
      let same : x ≡ a = ground arith in
      let rest = sum_nonneg j xs h.1 in
      let counted : reserved_for j x ≡ x.amount_cents = ground arith in
      rw (← same, counted) (omega int_laws)
  | inr f ↦
      let s' : find (is_reserved_milestone j m) xs ≡ some a = ground arith in
      let rest = reserved-le-sum j m a xs h.1 s' in
      elim (Bool-cases (x.escrow_id == j && is_reserved x.status)) [
        | inl t ↦ let first = h.0 in rw t (omega int_laws)
        | inr g ↦ rw g (omega int_laws)
      ]
]

pub Effect-IsValid : {db db' : Db} → Effect db db' → IsValid db → IsValid db'
Effect-IsValid e v = record {
  unique_ids = Effect-UniqueIds e v.unique_ids;
  unique_milestones = Effect-UniqueMilestones e v.unique_milestones;
  positive = Effect-positive e v.positive;
  covered = Effect-covered e v.covered;
}

pub Effects-IsValid : {db db' : Db} → Effects db db' → IsValid db → IsValid db'
Effects-IsValid unchanged v = v
Effects-IsValid (step es e) v = Effect-IsValid e (Effects-IsValid es v)
