-- ===== src/Escrow/Refine/Release.antt =====
-- The releases and `RefundEscrow` of services/escrow/internal/service/service.go under the
-- contract of Effects.
use aizorix_freelancer.Base.{
  String, Option, none, some, List, [], ◌∷◌, ◌++◌, ◌≡◌, refl, arith, inl, inr, Option-cases,
  Bool-cases, eq_iff,
}
use aizorix_freelancer.Base.Int.{ℤ, pos, ◌+ℤ◌, ◌-ℤ◌, ◌≤ℤ◌, ◌<ℤ◌, leb_ℤ, ltb_ℤ}
use aizorix_freelancer.Base.Table.{find, update, test-find}
use aizorix_freelancer.Base.Tx.{ok, Result-cases}
use aizorix_freelancer.Escrow.Tables.{Escrow, Allocation, Db}
use aizorix_freelancer.Escrow.Store.{
  has_id, is_reserved_milestone, is_reserved_row, collides, new_allocation, set_released,
  insert_allocation, is_active_week,
}
use aizorix_freelancer.Escrow.Service.{
  pay_out, refund_escrow, release_milestone, release_week, release_hours,
}
use aizorix_freelancer.Escrow.Rows.{UniqueIds, reserved_row_of_milestone, reserved_row_of_new}
use aizorix_freelancer.Escrow.Effects.{
  reserved_sum, allocated, paid, returned, Effects, unchanged, step,
}
use aizorix_freelancer.Escrow.Inversion.{pay_out-eq-ok, refund_escrow-eq-ok, fits_of_guard}
use aizorix_freelancer.Escrow.Refine.Fund.{Effects-trans}
use aizorix_freelancer.Escrow.Refine.Allocate.{insert_allocation-eq-ok}

escrow_of_milestone :
    (id m : String) (a : Allocation) (xs : List Allocation)
    → find (is_reserved_milestone id m) xs ≡ some a
    → a.escrow_id ≡ id
escrow_of_milestone id m a xs h =
    ground (arith, test-find (is_reserved_milestone id m) a xs h, eq_iff a.escrow_id id)

-- Marking a reserved row and paying it out is one change of the contract.
pay-Effects :
    (group : String) (m w : Option String) (held : ℤ) (a : Allocation) (db db' : Db) (e' : Escrow)
    → find (is_reserved_row a.id) db.allocations ≡ some a
    → pay_out group a.escrow_id m w held a.amount_cents
        (record db { allocations = update (is_reserved_row a.id) set_released db.allocations })
      ≡ ok (e', db')
    → Effects db db'
pay-Effects group m w held a db db' e' row h =
    let (e, s, v, _, same) = pay_out-eq-ok group a.escrow_id m w held a.amount_cents _ db' e' h in
    rw same (step unchanged (paid group e _ a _ _ s row v refl))

-- What a successful release has found and done.
pub release_milestone-eq-ok :
    (group id m : String) (db db' : Db) (e' : Escrow)
    → release_milestone group id m db ≡ ok (e', db')
    → UniqueIds db.allocations
    → (e : Escrow) × (a : Allocation) × (find (has_id id) db.accounts ≡ some e)
      × (find (is_reserved_milestone id m) db.allocations ≡ some a)
      × (find (is_reserved_row a.id) db.allocations ≡ some a)
      × (pay_out group a.escrow_id
            (some m)
            none
            e.held_cents
            a.amount_cents
            (record db { allocations = update (is_reserved_row a.id) set_released db.allocations })
          ≡ ok (e', db'))
unfolding release_milestone
release_milestone-eq-ok group id m db db' e' h u =
    elim (Option-cases (find (has_id id) db.accounts)) [
      | inl n ↦ ground arith
      | inr (e, s) ↦ elim (Option-cases (find (is_reserved_milestone id m) db.allocations)) [
        | inl n ↦ ground arith
        | inr (a, found) ↦
            let row = reserved_row_of_milestone id m a db.allocations u found in
            let owner = escrow_of_milestone id m a db.allocations found in
            elim (Bool-cases (ltb_ℤ e.held_cents a.amount_cents)) [
              | inl short ↦ ground arith
              | inr enough ↦ elim (Bool-cases (ltb_ℤ e.held_cents (reserved_sum id db))) [
                | inl short ↦ ground arith
                | inr covered ↦ (e, a, s, found, row, ground arith)
              ]
            ]
      ]
    ]

-- With unique row ids, a release pays out one reserved allocation of the milestone.
pub release_milestone-Effects :
    (group id m : String) (db db' : Db) (e' : Escrow)
    → UniqueIds db.allocations
    → release_milestone group id m db ≡ ok (e', db')
    → Effects db db'
release_milestone-Effects group id m db db' e' u h =
    let (e, a, s, found, row, last) = release_milestone-eq-ok group id m db db' e' h u in
    pay-Effects group (some m) none e.held_cents a db db' e' row last

-- The tables with a week's allocation, and with that allocation marked.
abbrev pub with_week : String → String → String → ℤ → Db → Db
with_week new_id id w amount db = record db {
  allocations = db.allocations ++ new_allocation new_id id none (some w) amount ∷ [];
}

abbrev pub with_marked : String → Db → Db
with_marked row db = record db {
  allocations = update (is_reserved_row row) set_released db.allocations;
}

pub release_week-eq-ok :
    (group new_id id w : String) (amount : ℤ) (e : Escrow) (db db' : Db) (e' : Escrow)
    → release_week group new_id id w amount e db ≡ ok (e', db')
    → (pos 0 <ℤ amount)
      × (reserved_sum id db +ℤ amount ≤ℤ e.held_cents)
      × (find (collides (new_allocation new_id id none (some w) amount)) db.allocations ≡ none)
      × (pay_out group id none
            (some w)
            e.held_cents
            amount
            (with_marked new_id (with_week new_id id w amount db))
          ≡ ok (e', db'))
unfolding release_week
release_week-eq-ok group new_id id w amount e db db' e' h =
    elim (Bool-cases (ltb_ℤ (e.held_cents -ℤ reserved_sum id db) amount)) [
      | inl short ↦ ground arith
      | inr fits ↦ elim (Result-cases (insert_allocation new_id id none (some w) amount db)) [
        | inl (x, q) ↦ ground arith
        | inr ((b, d), q) ↦
            let a = new_allocation new_id id none (some w) amount in
            let (p, new, n, same) =
              insert_allocation-eq-ok new_id id none (some w) amount db d b q in
            let row = reserved_row_of_new a db.allocations n refl in
            (p, fits_of_guard e.held_cents _ amount fits, n, ground arith)
      ]
    ]

release_week-Effects :
    (group new_id id w : String) (amount : ℤ) (e : Escrow) (db db' : Db) (e' : Escrow)
    → find (has_id id) db.accounts ≡ some e
    → release_week group new_id id w amount e db ≡ ok (e', db')
    → Effects db db'
release_week-Effects group new_id id w amount e db db' e' s h =
    let a = new_allocation new_id id none (some w) amount in
    let (p, fits, n, last) = release_week-eq-ok group new_id id w amount e db db' e' h in
    let row = reserved_row_of_new a db.allocations n refl in
    Effects-trans (step unchanged (allocated e a s p fits n refl)) (
      pay-Effects group none (some w) e.held_cents a (with_week new_id id w amount db) db' e' row
        last)

-- A week's release reserves unreserved funds and pays them out, or changes nothing.
pub release_hours-Effects :
    (group new_id id w : String) (amount : ℤ) (db db' : Db) (e' : Escrow)
    → release_hours group new_id id w amount db ≡ ok (e', db')
    → Effects db db'
unfolding release_hours
release_hours-Effects group new_id id w amount db db' e' h =
    elim (Bool-cases (leb_ℤ amount (pos 0))) [
      | inl low ↦ ground arith
      | inr positive ↦ elim (Option-cases (find (has_id id) db.accounts)) [
        | inl n ↦ ground arith
        | inr (e, s) ↦ elim (Option-cases (find (is_active_week id w) db.allocations)) [
          | inr (b, found) ↦ let same : db' ≡ db = ground arith in rw same unchanged
          | inl n ↦
              let last : release_week group new_id id w amount e db ≡ ok (e', db') = ground arith in
              release_week-Effects group new_id id w amount e db db' e' s last
        ]
      ]
    ]

pub refund_escrow-Effects :
    (group id : String) (amount : ℤ) (reason : String) (db db' : Db) (e' : Escrow)
    → refund_escrow group id amount reason db ≡ ok (e', db')
    → Effects db db'
refund_escrow-Effects group id amount reason db db' e' h =
    let (e, s, p, fits, (v, _, same)) = refund_escrow-eq-ok group id amount reason db db' e' h in
    rw same (step unchanged (returned id group amount e _ _ _ s p fits v))
