-- ===== src/Escrow/Refine/Allocate.antt =====
-- `AllocateToMilestone` of services/escrow/internal/service/service.go under the contract of
-- Effects.
use aizorix_freelancer.Base.{
  String, Option, none, some, [], ◌∷◌, ◌++◌, ◌≡◌, refl, arith, inl, inr, Option-cases, Bool-cases,
}
use aizorix_freelancer.Base.Int.{ℤ, pos, ◌-ℤ◌, ◌<ℤ◌, leb_ℤ, ltb_ℤ}
use aizorix_freelancer.Base.Table.{find}
use aizorix_freelancer.Base.Tx.{ok, Result-cases}
use aizorix_freelancer.Escrow.Tables.{Escrow, Allocation, Db}
use aizorix_freelancer.Escrow.Store.{
  has_id, is_active_milestone, collides, new_allocation, insert_allocation,
}
use aizorix_freelancer.Escrow.Service.{reserve, allocate_to_milestone}
use aizorix_freelancer.Escrow.Effects.{reserved_sum, allocated, Effects, unchanged, step}
use aizorix_freelancer.Escrow.Inversion.{pos_of_guard, fits_of_guard}

pub insert_allocation-eq-ok :
    (new_id e : String) (m w : Option String) (amount : ℤ) (db db' : Db) (a : Allocation)
    → insert_allocation new_id e m w amount db ≡ ok (a, db')
    → (pos 0 <ℤ amount)
      × (a ≡ new_allocation new_id e m w amount)
      × (find (collides (new_allocation new_id e m w amount)) db.allocations ≡ none)
      × (db'
          ≡ record db { allocations = db.allocations ++ new_allocation new_id e m w amount ∷ [] })
unfolding insert_allocation
insert_allocation-eq-ok new_id e m w amount db db' a h =
    elim (Option-cases (find (collides (new_allocation new_id e m w amount)) db.allocations)) [
      | inr (b, s) ↦ ground arith
      | inl n ↦ elim (Bool-cases (leb_ℤ amount (pos 0))) [
        | inl low ↦ ground arith
        | inr positive ↦ (pos_of_guard amount positive, ground arith, n, ground arith)
      ]
    ]

reserve-Effects :
    (new_id id m : String) (amount : ℤ) (e : Escrow) (db db' : Db) (a : Allocation)
    → find (has_id id) db.accounts ≡ some e
    → reserve new_id id m amount e db ≡ ok (a, db')
    → Effects db db'
unfolding reserve
reserve-Effects new_id id m amount e db db' a s h =
    elim (Bool-cases (ltb_ℤ (e.held_cents -ℤ reserved_sum id db) amount)) [
      | inl short ↦ ground arith
      | inr fits ↦ elim (Result-cases (insert_allocation new_id id (some m) none amount db)) [
        | inl (x, q) ↦ ground arith
        | inr ((b, d), q) ↦
            let last : d ≡ db' = ground arith in
            let (p, _, n, same) = insert_allocation-eq-ok new_id id (some m) none amount db d b q in
            rw (← last, same)
              (step unchanged (allocated e _ s p (fits_of_guard e.held_cents _ amount fits) n refl))
      ]
    ]

-- An allocation reserves unreserved funds of its account, or changes nothing.
pub allocate_to_milestone-Effects :
    (new_id id m : String) (amount : ℤ) (db db' : Db) (a : Allocation)
    → allocate_to_milestone new_id id m amount db ≡ ok (a, db')
    → Effects db db'
unfolding allocate_to_milestone
allocate_to_milestone-Effects new_id id m amount db db' a h =
    elim (Bool-cases (leb_ℤ amount (pos 0))) [
      | inl low ↦ ground arith
      | inr positive ↦ elim (Option-cases (find (has_id id) db.accounts)) [
        | inl n ↦ ground arith
        | inr (e, s) ↦ elim (Option-cases (find (is_active_milestone id m) db.allocations)) [
          | inr (b, found) ↦ let same : db' ≡ db = ground arith in rw same unchanged
          | inl n ↦
              let last : reserve new_id id m amount e db ≡ ok (a, db') = ground arith in
              reserve-Effects new_id id m amount e db db' a s last
        ]
      ]
    ]
