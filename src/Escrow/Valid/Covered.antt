-- ===== src/Escrow/Valid/Covered.antt =====
-- What an account of services/escrow/internal/store/store.go holds covers its reserved rows.
use aizorix_freelancer.Base.{
  String, true, false, Option, none, some, List, [], ◌∷◌, ◌++◌, ◌≡◌, ◌≢◌, refl, ◌==◌, arith, inl,
  inr, Option-cases, text-cases, eq_iff, sym, ap, ◌∙◌,
}
use mathlib.Core.Path.{subst}
use aizorix_freelancer.Base.Int.{ℤ, pos, ◌+ℤ◌, ◌≤ℤ◌, ◌<ℤ◌, int_laws, parts_of_eq, +ℤ_zero}
use aizorix_freelancer.Base.Table.{
  find, update, sum_by, sum_by-append, sum_by-update, find-append, find-append_some,
  find-update_self, find-update_other, test-find,
}
use aizorix_freelancer.Escrow.Tables.{Escrow, Allocation, Db, is_reserved}
use aizorix_freelancer.Escrow.Store.{
  has_id, reserved_for, is_reserved_row, set_released, plus_held, held_to_released,
  held_to_refunded,
}
use aizorix_freelancer.Escrow.Rows.{UniqueIds}
use aizorix_freelancer.Escrow.Milestones.{UniqueMilestones}
use aizorix_freelancer.Escrow.Effects.{
  reserved_sum, Effect, opened, claimed, deposited, allocated, paid, returned,
}

abbrev pub held_in : Option Escrow → ℤ
held_in none = pos 0
held_in (some e) = e.held_cents

-- The held cents of the account of an id; an account that is not there holds nothing.
abbrev pub held_of : String → List Escrow → ℤ
held_of id accounts = held_in (find (has_id id) accounts)

-- `CHECK (amount_cents > 0)`
abbrev pub AllPositive : List Allocation → Type 0
AllPositive [] = Unit
AllPositive (a ∷ rest) = (pos 0 <ℤ a.amount_cents) × AllPositive rest

pub record IsValid (db : Db) : Type 0 where
  pub unique_ids : UniqueIds db.allocations
  pub unique_milestones : UniqueMilestones db.allocations
  pub positive : AllPositive db.allocations
  pub covered : (id : String) → reserved_sum id db ≤ℤ held_of id db.accounts

held_of-some :
    (id : String) (e : Escrow) (accounts : List Escrow)
    → find (has_id id) accounts ≡ some e
    → held_of id accounts ≡ e.held_cents
held_of-some id e accounts h = ground arith

held_of-append :
    (j : String) (e : Escrow) (accounts : List Escrow)
    → find (has_id e.id) accounts ≡ none
    → e.held_cents ≡ pos 0
    → held_of j (accounts ++ e ∷ []) ≡ held_of j accounts
held_of-append j e accounts n z = elim (Option-cases (find (has_id j) accounts)) [
  | inl none_yet ↦ ground (arith, find-append (has_id j) e accounts none_yet)
  | inr (old, s) ↦ ground (arith, find-append_some (has_id j) e old accounts s)
]

held_of-update_self :
    (id : String) (f : Escrow → Escrow) (e : Escrow) (accounts : List Escrow)
    → ((x : Escrow) → (f x).id ≡ x.id)
    → find (has_id id) accounts ≡ some e
    → held_of id (update (has_id id) f accounts) ≡ (f e).held_cents
held_of-update_self id f e accounts keep s =
    held_of-some id (f e) _ (find-update_self (has_id id) f e accounts (λ x. λ i. keep x i == id) s)

held_of-update_other :
    (id j : String) (f : Escrow → Escrow) (accounts : List Escrow)
    → ((x : Escrow) → (f x).id ≡ x.id)
    → id ≢ j
    → held_of j (update (has_id id) f accounts) ≡ held_of j accounts
held_of-update_other id j f accounts keep ne =
    let differs : (x : Escrow) → has_id id x ≡ true → has_id j x ≡ false =
      λ x t. ground (arith, eq_iff x.id id, eq_iff x.id j) in
    ap held_in (
      find-update_other (has_id j) (has_id id) f accounts differs
        (λ x t. rw (keep x) (differs x t)))

reserved_for_other : (j : String) (a : Allocation) → a.escrow_id ≢ j → reserved_for j a ≡ pos 0
reserved_for_other j a ne = ground (arith, eq_iff a.escrow_id j)

reserved_for_self :
    (a : Allocation) → is_reserved a.status ≡ true → reserved_for a.escrow_id a ≡ a.amount_cents
reserved_for_self a r = ground (arith, eq_iff a.escrow_id a.escrow_id)

reserved_for_released : (j : String) (a : Allocation) → reserved_for j (set_released a) ≡ pos 0
reserved_for_released j a = ground (arith, eq_iff a.escrow_id j)

-- An account changes, and the reserved cents of the others do not grow.
covered-update :
    (id j : String) (f : Escrow → Escrow) (e : Escrow) (accounts : List Escrow)
    (old new : String → ℤ)
    → ((x : Escrow) → (f x).id ≡ x.id)
    → find (has_id id) accounts ≡ some e
    → ((k : String) → old k ≤ℤ held_of k accounts)
    → ((k : String) → id ≢ k → new k ≡ old k)
    → new id ≤ℤ (f e).held_cents
    → new j ≤ℤ held_of j (update (has_id id) f accounts)
covered-update id j f e accounts old new keep s c others self = elim (text-cases id j) [
  | inl (same, _) ↦
      subst (λ k. new k ≤ℤ held_of k (update (has_id id) f accounts)) same
        (rw (held_of-update_self id f e accounts keep s) self)
  | inr (ne, _) ↦ rw (held_of-update_other id j f accounts keep ne, others j ne) (c j)
]

pub covered_found :
    (db : Db) (id : String) (e : Escrow)
    → find (has_id id) db.accounts ≡ some e
    → ((k : String) → reserved_sum k db ≤ℤ held_of k db.accounts)
    → reserved_sum id db ≤ℤ e.held_cents
covered_found db id e s c = rw (held_of-some id e db.accounts s) at (c id)

-- Marking a reserved row takes its amount off its escrow's sum, and off no other.
reserved_sum-marked :
    (a : Allocation) (xs : List Allocation) (j : String)
    → find (is_reserved_row a.id) xs ≡ some a
    → sum_by (reserved_for j) (update (is_reserved_row a.id) set_released xs) +ℤ reserved_for j a
      ≡ sum_by (reserved_for j) xs
reserved_sum-marked a xs j row =
    let moved = sum_by-update (reserved_for j) (is_reserved_row a.id) set_released a xs row in
    moved ∙ rw (reserved_for_released j a) (+ℤ_zero _)

row_is_reserved :
    (a : Allocation) (xs : List Allocation)
    → find (is_reserved_row a.id) xs ≡ some a
    → is_reserved a.status ≡ true
row_is_reserved a xs h = ground (arith, test-find (is_reserved_row a.id) a xs h)

marked_others :
    (a : Allocation) (xs : List Allocation) (j : String)
    → find (is_reserved_row a.id) xs ≡ some a
    → a.escrow_id ≢ j
    → sum_by (reserved_for j) (update (is_reserved_row a.id) set_released xs)
      ≡ sum_by (reserved_for j) xs
marked_others a xs j row ne =
    sym (+ℤ_zero _) ∙ rw (reserved_for_other j a ne) at (reserved_sum-marked a xs j row)

marked_self :
    (a : Allocation) (xs : List Allocation)
    → find (is_reserved_row a.id) xs ≡ some a
    → sum_by (reserved_for a.escrow_id) (update (is_reserved_row a.id) set_released xs)
        +ℤ a.amount_cents
      ≡ sum_by (reserved_for a.escrow_id) xs
marked_self a xs row =
    rw (reserved_for_self a (row_is_reserved a xs row)) at
      (reserved_sum-marked a xs a.escrow_id row)

allocated_sum :
    (a : Allocation) (xs : List Allocation) (j : String)
    → sum_by (reserved_for j) (xs ++ a ∷ []) ≡ sum_by (reserved_for j) xs +ℤ reserved_for j a
allocated_sum a xs j = rw (sum_by-append (reserved_for j) xs (a ∷ []), +ℤ_zero)

allocated_covered :
    (db : Db) (e : Escrow) (a : Allocation) (j : String)
    → find (has_id a.escrow_id) db.accounts ≡ some e
    → reserved_sum a.escrow_id db +ℤ a.amount_cents ≤ℤ e.held_cents
    → is_reserved a.status ≡ true
    → ((id : String) → reserved_sum id db ≤ℤ held_of id db.accounts)
    → sum_by (reserved_for j) (db.allocations ++ a ∷ []) ≤ℤ held_of j db.accounts
allocated_covered db e a j s fits r c = elim (text-cases a.escrow_id j) [
  | inl (same, _) ↦
      subst (λ k. sum_by (reserved_for k) (db.allocations ++ a ∷ []) ≤ℤ held_of k db.accounts) same
        (rw
          (
            allocated_sum a db.allocations a.escrow_id,
            reserved_for_self a r,
            held_of-some a.escrow_id e db.accounts s,
          )
          fits)
  | inr (ne, _) ↦ rw (allocated_sum a db.allocations j, reserved_for_other j a ne, +ℤ_zero) (c j)
]

-- Each change of the contract keeps the reserved cents covered.
pub Effect-covered :
    {db db' : Db}
    → Effect db db'
    → ((id : String) → reserved_sum id db ≤ℤ held_of id db.accounts)
    → (id : String) → reserved_sum id db' ≤ℤ held_of id db'.accounts
Effect-covered {db} (opened e n m (z, _, _)) c j = rw (held_of-append j e db.accounts m z) (c j)
Effect-covered (claimed k n) c j = c j
Effect-covered {db} (deposited id g contract amount e ev s p v) c j =
    let before = covered_found db id e s c in
    covered-update id j (plus_held amount) e db.accounts (λ k. reserved_sum k db)
      (λ k. reserved_sum k db) (λ x. refl) s c (λ k ne. refl) (omega int_laws)
Effect-covered {db} (allocated e a s p fits n r) c j =
    allocated_covered db e a j s fits (ap is_reserved r) c
Effect-covered {db} (paid g e e' a st ev s row v same) c j =
    let before = covered_found db a.escrow_id e s c in
    let less = parts_of_eq _ _ (marked_self a db.allocations row) in
    covered-update a.escrow_id j (held_to_released a.amount_cents st) e db.accounts
      (λ k. reserved_sum k db)
      (λ k. sum_by (reserved_for k) (update (is_reserved_row a.id) set_released db.allocations))
      (λ x. refl) s c (λ k ne. marked_others a db.allocations k row ne) (omega int_laws)
Effect-covered {db} (returned id g amount e st memo ev s p fits v) c j =
    covered-update id j (held_to_refunded amount st) e db.accounts (λ k. reserved_sum k db)
      (λ k. reserved_sum k db) (λ x. refl) s c (λ k ne. refl) (omega int_laws)
