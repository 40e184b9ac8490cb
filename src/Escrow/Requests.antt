-- ===== src/Escrow/Requests.antt =====
-- The escrow service as a state machine: each request runs one method on the tables.
use aizorix_freelancer.Base.{String, List, [], ◌∷◌, ◌≡◌, refl, arith, inl, inr, Bool-cases, ap}
use aizorix_freelancer.Base.Int.{ℤ, pos, leb_ℤ, int_laws}
use aizorix_freelancer.Base.Tx.{Result, ok, err, Tx, transact, transact-cases}
use aizorix_freelancer.Escrow.Tables.{Escrow, Db, Error}
use aizorix_freelancer.Escrow.Store.{get_escrow}
use aizorix_freelancer.Escrow.Service.{
  Funding, credited, replayed, end_funding, fund_escrow, allocate_to_milestone, release_milestone,
  release_hours, refund_escrow,
}
use aizorix_freelancer.Escrow.Effects.{Effects, unchanged}
use aizorix_freelancer.Escrow.Inversion.{pos_of_guard}
use aizorix_freelancer.Escrow.Refine.Fund.{fund_tx-Effects, Effects-trans}
use aizorix_freelancer.Escrow.Refine.Allocate.{allocate_to_milestone-Effects}
use aizorix_freelancer.Escrow.Refine.Release.{
  release_milestone-Effects, release_hours-Effects, refund_escrow-Effects,
}
use aizorix_freelancer.Escrow.Valid.Covered.{IsValid}
use aizorix_freelancer.Escrow.Valid.Invariant.{Effects-IsValid}
use aizorix_freelancer.Escrow.Ledger.{IsReconciled, Effects-IsReconciled}

-- A call of a method with the ids that it draws.
pub data Request : Type 0 where
  fund : String → String → String → ℤ → String → String → Request
  allocate : String → String → String → ℤ → Request
  release : String → String → String → Request
  release_week_hours : String → String → String → String → ℤ → Request
  refund_held : String → String → ℤ → String → Request

-- The tables after a request, whether it succeeds or not.
unfoldable pub handle : Request → Db → Db
unfolding fund_escrow
handle (fund group new_id contract_id amount currency key) db =
    (fund_escrow group new_id contract_id amount currency key db).1
handle (allocate new_id id m amount) db = (transact (allocate_to_milestone new_id id m amount) db).1
handle (release group id m) db = (transact (release_milestone group id m) db).1
handle (release_week_hours group new_id id w amount) db =
    (transact (release_hours group new_id id w amount) db).1
handle (refund_held group id amount reason) db =
    (transact (refund_escrow group id amount reason) db).1

unfoldable pub serve : List Request → Db → Db
unfolding handle
serve [] db = db
serve (r ∷ rs) db = serve rs (handle r db)

abbrev pub empty : Db
empty = record { accounts = []; allocations = []; fund_keys = []; transactions = []; outbox = [] }

pub transact-Effects :
    {A : Type 0} (m : Tx Db Error A) (db : Db)
    → ((db' : Db) (a : A) → m db ≡ ok (a, db') → Effects db db')
    → Effects db (transact m db).1
transact-Effects m db h = elim (transact-cases m db) [
  | inl (e, failed, t) ↦ let same : (transact m db).1 ≡ db = ap (λ r. r.1) t in rw same unchanged
  | inr (a, db', run, t) ↦
      let same : (transact m db).1 ≡ db' = ap (λ r. r.1) t in rw same (h db' a run)
]

pub get_escrow-same : (id : String) (db : Db) → (transact (get_escrow id) db).1 ≡ db
unfolding get_escrow
get_escrow-same id db = ground arith

end_funding-Effects :
    (r : Result Error (Funding × Db)) (db : Db)
    → ((e : Escrow) (db' : Db) → r ≡ ok (credited e, db') → Effects db db')
    → Effects db (end_funding r db).1
end_funding-Effects (ok (credited e, db')) db h = h e db' refl
end_funding-Effects (ok (replayed id, db')) db h = rw (get_escrow-same id db) unchanged
end_funding-Effects (err x) db h = unchanged

pub fund_escrow-Effects :
    (group new_id contract_id : String) (amount : ℤ) (currency key : String) (db : Db)
    → Effects db (fund_escrow group new_id contract_id amount currency key db).1
unfolding fund_escrow
fund_escrow-Effects group new_id contract_id amount currency key db =
    elim (Bool-cases (leb_ℤ amount (pos 0))) [
      | inl low ↦ rw low unchanged
      | inr positive ↦ rw positive (
          end_funding-Effects _ db (λ e db' q.
            fund_tx-Effects group new_id contract_id amount currency key db db' e
              (pos_of_guard amount positive) q))
    ]

handle-Effects : (r : Request) (db : Db) → IsValid db → Effects db (handle r db)
unfolding handle
handle-Effects (fund group new_id contract_id amount currency key) db v =
    fund_escrow-Effects group new_id contract_id amount currency key db
handle-Effects (allocate new_id id m amount) db v =
    transact-Effects (allocate_to_milestone new_id id m amount) db
      (λ db' a q. allocate_to_milestone-Effects new_id id m amount db db' a q)
handle-Effects (release group id m) db v =
    transact-Effects (release_milestone group id m) db
      (λ db' e q. release_milestone-Effects group id m db db' e v.unique_ids q)
handle-Effects (release_week_hours group new_id id w amount) db v =
    transact-Effects (release_hours group new_id id w amount) db
      (λ db' e q. release_hours-Effects group new_id id w amount db db' e q)
handle-Effects (refund_held group id amount reason) db v =
    transact-Effects (refund_escrow group id amount reason) db
      (λ db' e q. refund_escrow-Effects group id amount reason db db' e q)

pub serve-Effects : (rs : List Request) (db : Db) → IsValid db → Effects db (serve rs db)
unfolding serve
serve-Effects [] db v = unchanged
serve-Effects (r ∷ rs) db v =
    let first = handle-Effects r db v in
    Effects-trans first (serve-Effects rs (handle r db) (Effects-IsValid first v))

pub empty-IsValid : IsValid empty
empty-IsValid = record {
  unique_ids = tt;
  unique_milestones = tt;
  positive = tt;
  covered = λ id. omega arith;
}

pub empty-IsReconciled : IsReconciled empty
empty-IsReconciled = record {
  freelancers = refl;
  clients = refl;
  contracts = omega int_laws;
  zero_sum = omega int_laws;
}

-- Whatever requests are served, the reserved cents of each account are at most what it holds, row
-- ids and the active allocations of a milestone are unique, and each allocation is positive.
pub serve-IsValid : (rs : List Request) → IsValid (serve rs empty)
serve-IsValid rs = Effects-IsValid (serve-Effects rs empty empty-IsValid) empty-IsValid

-- Whatever requests are served, the ledger's balances of the freelancers, the refunds and the
-- contracts are the released, the refunded and all cents of the accounts, and it sums to zero.
pub serve-IsReconciled : (rs : List Request) → IsReconciled (serve rs empty)
serve-IsReconciled rs =
    Effects-IsReconciled (serve-Effects rs empty empty-IsValid) empty-IsReconciled
