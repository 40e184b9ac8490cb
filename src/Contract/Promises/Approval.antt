-- ===== src/Contract/Promises/Approval.antt =====
-- Who may approve a milestone: `ApproveMilestone` of
-- services/contract/internal/service/service.go.
use aizorix_freelancer.Base.{
  ℕ, String, true, some, [], ◌∷◌, ◌++◌, ◌≡◌, refl, ◌==◌, arith, ap, sym, ◌∙◌, eq_iff, ◌↔◌,
}
use aizorix_freelancer.Base.Table.{find, update}
use aizorix_freelancer.Base.Tx.{ok}
use aizorix_freelancer.Contract.Tables.{Contract, Milestone, MilestoneStatus, Db, is_submitted}
use aizorix_freelancer.Contract.Store.{has_id, has_milestone_id, set_approved}
use aizorix_freelancer.Contract.Service.{approve_milestone, approved_event}
use aizorix_freelancer.Contract.Refine.{approve_milestone-eq-ok}

approve_milestone_runs :
    (now : ℕ) (id actor : String) (db : Db) (m : Milestone) (c : Contract)
    → find (has_milestone_id id) db.milestones ≡ some m
    → find (has_id m.contract_id) db.contracts ≡ some c
    → m.status ≡ MilestoneStatus.submitted
    → actor ≡ c.client_id
    → approve_milestone now id actor db
      ≡ ok (
        tt,
        record db {
          milestones = update (has_milestone_id id) (set_approved now) db.milestones;
          outbox = db.outbox ++ approved_event id m c ∷ [];
        },
      )
unfolding approve_milestone
approve_milestone_runs now id actor db m c s t p q =
    let submitted : is_submitted m.status ≡ true = rw p refl in
    let client : (actor == c.client_id) ≡ true = (eq_iff actor c.client_id).1 q in ground arith

-- The approval of a milestone of a contract succeeds if and only if the milestone is submitted and
-- the actor is the contract's client.
pub approve_milestone_iff :
    (now : ℕ) (id actor : String) (db : Db) (m : Milestone) (c : Contract)
    → find (has_milestone_id id) db.milestones ≡ some m
    → find (has_id m.contract_id) db.contracts ≡ some c
    → ((db' : Db) × (approve_milestone now id actor db ≡ ok (tt, db')))
      ↔ ((m.status ≡ MilestoneStatus.submitted) × (actor ≡ c.client_id))
approve_milestone_iff now id actor db m c s t = (
  λ (db', h).
      let (n, d, a, b, e, f, g) = approve_milestone-eq-ok now id actor db db' h in
      let one : m ≡ n = ground arith in
      let both : c ≡ d = ground arith in
      (ap (λ x. x.status) one ∙ b, f ∙ ap (λ x. x.client_id) (sym both)),
  λ (p, q). (_, approve_milestone_runs now id actor db m c s t p q),
)
