-- ===== src/Escrow/Promises/ReleaseOnce.antt =====
-- `ReleaseMilestone` of services/escrow/internal/service/service.go: a milestone is paid out once.
use aizorix_freelancer.Base.{String, Bool, some, List, [], ◌∷◌, ◌≡◌, arith}
use aizorix_freelancer.Base.Table.{find}
use aizorix_freelancer.Base.Tx.{ok, err}
use aizorix_freelancer.Escrow.Tables.{Escrow, Allocation, Db, not_found}
use aizorix_freelancer.Escrow.Store.{is_reserved_milestone, is_active_milestone, is_reserved_row}
use aizorix_freelancer.Escrow.Service.{release_milestone}
use aizorix_freelancer.Escrow.Inversion.{pay_out-eq-ok}
use aizorix_freelancer.Escrow.Refine.Release.{release_milestone-eq-ok, release_milestone-Effects}
use aizorix_freelancer.Escrow.Milestones.{none_reserved_of_marked}
use aizorix_freelancer.Escrow.Once.{Has, Has-marked, IsPaid, Effect-IsPaid, Effects-keep}
use aizorix_freelancer.Escrow.Valid.Covered.{IsValid}
use aizorix_freelancer.Escrow.Valid.Invariant.{Effects-IsValid}
use aizorix_freelancer.Escrow.Requests.{Request, serve, serve-Effects}

found-Has :
    {A : Type 0} (test : A → Bool) (a : A) (xs : List A) → find test xs ≡ some a → Has test xs
found-Has test a xs h = rw h

active_of_reserved :
    (id m : String) (a : Allocation) (xs : List Allocation)
    → find (is_reserved_milestone id m) xs ≡ some a
    → Has (is_active_milestone id m) xs
active_of_reserved id m a [] h = ground arith
active_of_reserved id m a (x ∷ xs) h = ground (arith, active_of_reserved id m a xs)

release-IsPaid :
    (group id m : String) (db db' : Db) (e' : Escrow)
    → IsValid db
    → release_milestone group id m db ≡ ok (e', db')
    → IsPaid id m db'
release-IsPaid group id m db db' e' v h =
    let (e, a, s, found, row, last) = release_milestone-eq-ok group id m db db' e' h v.unique_ids in
    let (e₁, s₁, b, _, same) = pay_out-eq-ok group a.escrow_id _ _ _ _ _ db' e' last in
    rw same (record {
      active =
          Has-marked (is_active_milestone id m) (is_reserved_row a.id) db.allocations
            (λ x t. ground arith) (active_of_reserved id m a db.allocations found);
      none_reserved =
          none_reserved_of_marked id m a db.allocations v.unique_ids v.unique_milestones found;
    })

release_of_IsPaid :
    (group id m : String) (db : Db)
    → IsPaid id m db
    → release_milestone group id m db ≡ err not_found
unfolding release_milestone
release_of_IsPaid group id m db p = let n = p.none_reserved in ground arith

-- Once a milestone's release has succeeded on valid tables, every later release of it fails with
-- `not_found`, whatever requests are served in between.
pub release_milestone_once :
    (group again id m : String) (db db' : Db) (e : Escrow) (rs : List Request)
    → IsValid db
    → release_milestone group id m db ≡ ok (e, db')
    → release_milestone again id m (serve rs db') ≡ err not_found
release_milestone_once group again id m db db' e rs v h =
    let valid = Effects-IsValid (release_milestone-Effects group id m db db' e v.unique_ids h) v in
    release_of_IsPaid again id m (serve rs db') (
      Effects-keep (IsPaid id m) (λ d d' ef p. Effect-IsPaid id m ef p) (serve-Effects rs db' valid)
        (release-IsPaid group id m db db' e v h))
