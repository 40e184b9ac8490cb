-- ===== src/Escrow/Promises/WeekOnce.antt =====
-- `ReleaseHours` of services/escrow/internal/service/service.go: a billing week is paid out once.
use aizorix_freelancer.Base.{
  String, Bool, true, none, some, List, [], ◌∷◌, ◌≡◌, arith, ◌++◌, inl, inr, Bool-cases,
  Option-cases, eq_refl,
}
use aizorix_freelancer.Base.Int.{ℤ, pos, leb_ℤ}
use aizorix_freelancer.Base.Table.{find, find-append}
use aizorix_freelancer.Base.Tx.{ok, transact}
use aizorix_freelancer.Escrow.Tables.{Escrow, Db}
use aizorix_freelancer.Escrow.Store.{has_id, new_allocation, is_reserved_row, is_active_week}
use aizorix_freelancer.Escrow.Service.{release_week, release_hours}
use aizorix_freelancer.Escrow.Inversion.{pay_out-eq-ok}
use aizorix_freelancer.Escrow.Refine.Release.{release_hours-Effects, release_week-eq-ok}
use aizorix_freelancer.Escrow.Once.{Has, Has-append, Has-marked, Effect-week, Effects-keep}
use aizorix_freelancer.Escrow.Valid.Covered.{IsValid}
use aizorix_freelancer.Escrow.Valid.Invariant.{Effects-IsValid}
use aizorix_freelancer.Escrow.Requests.{Request, serve, serve-Effects}

-- Weeks.
last-Has :
    {A : Type 0} (test : A → Bool) (a : A) (xs : List A) → test a ≡ true → Has test (xs ++ a ∷ [])
last-Has test a xs t = elim (Option-cases (find test xs)) [
  | inl n ↦ rw (find-append test a xs n, t)
  | inr (b, s) ↦ Has-append test xs a (rw s)
]

release_week-Has :
    (group new_id id w : String) (amount : ℤ) (e : Escrow) (db db' : Db) (e' : Escrow)
    → release_week group new_id id w amount e db ≡ ok (e', db')
    → Has (is_active_week id w) db'.allocations
release_week-Has group new_id id w amount e db db' e' h =
    let (_, _, _, last) = release_week-eq-ok group new_id id w amount e db db' e' h in
    let (_, _, _, _, same) =
      pay_out-eq-ok group id none (some w) e.held_cents amount _ db' e' last in
    let a = new_allocation new_id id none (some w) amount in
    rw same (
      Has-marked (is_active_week id w) (is_reserved_row new_id) _ (λ x t. ground arith)
        (last-Has (is_active_week id w) a db.allocations (ground (arith, eq_refl id, eq_refl w))))

later-Has :
    (group new_id id w : String) (amount : ℤ) (db db' : Db) (e : Escrow)
    → release_hours group new_id id w amount db ≡ ok (e, db')
    → Has (is_active_week id w) db'.allocations
unfolding release_hours
later-Has group new_id id w amount db db' e h = elim (Bool-cases (leb_ℤ amount (pos 0))) [
  | inl low ↦ ground arith
  | inr positive ↦ elim (Option-cases (find (has_id id) db.accounts)) [
    | inl n ↦ ground arith
    | inr (e₀, s) ↦ elim (Option-cases (find (is_active_week id w) db.allocations)) [
      | inr (a, found) ↦ let same : db' ≡ db = ground arith in rw (same, found)
      | inl n ↦
          let paid_out : release_week group new_id id w amount e₀ db ≡ ok (e, db') = ground arith in
          release_week-Has group new_id id w amount e₀ db db' e paid_out
    ]
  ]
]

release_of_week :
    (group new_id id w : String) (amount : ℤ) (db : Db)
    → Has (is_active_week id w) db.allocations
    → (transact (release_hours group new_id id w amount) db).1 ≡ db
unfolding release_hours
release_of_week group new_id id w amount db h = elim (Bool-cases (leb_ℤ amount (pos 0))) [
  | inl low ↦ ground arith
  | inr positive ↦ elim (Option-cases (find (has_id id) db.accounts)) [
    | inl n ↦ ground arith
    | inr (e, s) ↦ elim (Option-cases (find (is_active_week id w) db.allocations)) [
      | inl n ↦ absurd (ground (arith, n))
      | inr (a, t) ↦ ground arith
    ]
  ]
]

-- A week is released once: when its release has succeeded on valid tables, no later release of it
-- changes the tables, whatever its amount, and whatever requests are served in between.
pub release_hours_once :
    (group again new_id other id w : String) (amount more : ℤ) (db db' : Db) (e : Escrow)
    (rs : List Request)
    → IsValid db
    → release_hours group new_id id w amount db ≡ ok (e, db')
    → (transact (release_hours again other id w more) (serve rs db')).1 ≡ serve rs db'
release_hours_once group again new_id other id w amount more db db' e rs v h =
    let valid = Effects-IsValid (release_hours-Effects group new_id id w amount db db' e h) v in
    release_of_week again other id w more (serve rs db') (
      Effects-keep (λ d. Has (is_active_week id w) d.allocations)
        (λ d d' ef p. Effect-week id w ef p) (serve-Effects rs db' valid)
        (later-Has group new_id id w amount db db' e h))
