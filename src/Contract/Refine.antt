-- ===== src/Contract/Refine.antt =====
-- The methods of the contract service record each change of a contract's status, and move the
-- milestones along the edges of their state machine.
use aizorix_freelancer.Base.{
  ℕ, String, true, some, List, [], ◌∷◌, ◌++◌, ◌≡◌, ◌==◌, arith, inl, inr, sym, Option-cases,
  Bool-cases, eq_iff,
}
use mathlib.Core.Path.{subst}
use aizorix_freelancer.Base.Table.{find, update}
use aizorix_freelancer.Base.Tx.{ok}
use aizorix_freelancer.Contract.Tables.{
  Contract, Milestone, MilestoneStatus, ContractEvent, Db, is_pending, is_funded, is_submitted,
}
use aizorix_freelancer.Contract.Store.{
  has_id, has_milestone_id, set_funded, set_submitted, set_approved,
}
use aizorix_freelancer.Contract.Service.{
  fund_milestone, submit_milestone, approve_milestone, approved_event,
}
use aizorix_freelancer.Contract.History.{Logged, kept}
use aizorix_freelancer.Contract.Milestones.{
  funded_at, submitted_at, approved_at, Moves, unmoved, move,
}

-- What a method has done to the contracts, their events and the milestones.
pub record Done (db db' : Db) : Type 0 where
  pub logged : Logged db.contracts db.contract_events db'.contracts db'.contract_events
  pub moves : Moves db.milestones db'.milestones

-- From equations for the tables that a method leaves.
pub Done_of :
    {cs : List Contract} {evs : List ContractEvent} {ms : List Milestone} (db db' : Db)
    → Logged db.contracts db.contract_events cs evs
    → Moves db.milestones ms
    → db'.contracts ≡ cs
    → db'.contract_events ≡ evs
    → db'.milestones ≡ ms
    → Done db db'
Done_of {cs} db db' l m c e k = record {
  logged =
      subst (λ x. Logged db.contracts db.contract_events x db'.contract_events) (sym c)
        (subst (λ y. Logged db.contracts db.contract_events cs y) (sym e) l);
  moves = subst (λ x. Moves db.milestones x) (sym k) m;
}

is_pending_eq : (s : MilestoneStatus) → is_pending s ≡ true → s ≡ MilestoneStatus.pending
is_pending_eq s h = ground arith

is_funded_eq : (s : MilestoneStatus) → is_funded s ≡ true → s ≡ MilestoneStatus.funded
is_funded_eq s h = ground arith

is_submitted_eq : (s : MilestoneStatus) → is_submitted s ≡ true → s ≡ MilestoneStatus.submitted
is_submitted_eq s h = ground arith

-- A funding moves a pending milestone, for the contract's client.
pub fund_milestone-eq-ok :
    (now : ℕ) (id caller : String) (db db' : Db)
    → fund_milestone now id caller db ≡ ok (tt, db')
    → (m : Milestone) × (c : Contract) × (find (has_milestone_id id) db.milestones ≡ some m)
      × (m.status ≡ MilestoneStatus.pending)
      × (find (has_id m.contract_id) db.contracts ≡ some c)
      × (caller ≡ c.client_id)
      × (db'
          ≡ record db { milestones = update (has_milestone_id id) (set_funded now) db.milestones })
unfolding fund_milestone
fund_milestone-eq-ok now id caller db db' h =
    elim (Option-cases (find (has_milestone_id id) db.milestones)) [
      | inl n ↦ ground arith
      | inr (m, s) ↦ elim (Bool-cases (is_pending m.status)) [
        | inr p ↦ ground arith
        | inl p ↦ elim (Option-cases (find (has_id m.contract_id) db.contracts)) [
          | inl n ↦ ground arith
          | inr (c, t) ↦ elim (Bool-cases (caller == c.client_id)) [
            | inr f ↦ ground arith
            | inl f ↦ (
              m,
              c,
              s,
              is_pending_eq m.status p,
              t,
              (eq_iff caller c.client_id).0 f,
              ground arith,
            )
          ]
        ]
      ]
    ]

pub approve_milestone-eq-ok :
    (now : ℕ) (id actor : String) (db db' : Db)
    → approve_milestone now id actor db ≡ ok (tt, db')
    → (m : Milestone) × (c : Contract) × (find (has_milestone_id id) db.milestones ≡ some m)
      × (m.status ≡ MilestoneStatus.submitted)
      × (find (has_id m.contract_id) db.contracts ≡ some c)
      × (actor ≡ c.client_id)
      × (db' ≡ record db {
        milestones = update (has_milestone_id id) (set_approved now) db.milestones;
        outbox = db.outbox ++ approved_event id m c ∷ [];
      })
unfolding approve_milestone
approve_milestone-eq-ok now id actor db db' h =
    elim (Option-cases (find (has_milestone_id id) db.milestones)) [
      | inl n ↦ ground arith
      | inr (m, s) ↦ elim (Bool-cases (is_submitted m.status)) [
        | inr p ↦ ground arith
        | inl p ↦ elim (Option-cases (find (has_id m.contract_id) db.contracts)) [
          | inl n ↦ ground arith
          | inr (c, t) ↦ elim (Bool-cases (actor == c.client_id)) [
            | inr f ↦ ground arith
            | inl f ↦ (
              m,
              c,
              s,
              is_submitted_eq m.status p,
              t,
              (eq_iff actor c.client_id).0 f,
              ground arith,
            )
          ]
        ]
      ]
    ]

pub submit_milestone-eq-ok :
    (now : ℕ) (id actor note : String) (keys : List String) (db db' : Db)
    → submit_milestone now id actor note keys db ≡ ok (tt, db')
    → (m : Milestone) × (c : Contract) × (find (has_milestone_id id) db.milestones ≡ some m)
      × (m.status ≡ MilestoneStatus.funded)
      × (find (has_id m.contract_id) db.contracts ≡ some c)
      × (actor ≡ c.freelancer_id)
      × (db'.milestones ≡ update (has_milestone_id id) (set_submitted now) db.milestones)
      × (db'.contracts ≡ db.contracts)
      × (db'.contract_events ≡ db.contract_events)
unfolding submit_milestone
submit_milestone-eq-ok now id actor note keys db db' h =
    elim (Option-cases (find (has_milestone_id id) db.milestones)) [
      | inl n ↦ ground arith
      | inr (m, s) ↦ elim (Bool-cases (is_funded m.status)) [
        | inr p ↦ ground arith
        | inl p ↦ elim (Option-cases (find (has_id m.contract_id) db.contracts)) [
          | inl n ↦ ground arith
          | inr (c, t) ↦ elim (Bool-cases (actor == c.freelancer_id)) [
            | inr f ↦ ground arith
            | inl f ↦ (
              m,
              c,
              s,
              is_funded_eq m.status p,
              t,
              (eq_iff actor c.freelancer_id).0 f,
              ground arith,
              ground arith,
              ground arith,
            )
          ]
        ]
      ]
    ]

pub fund_milestone-Done :
    (now : ℕ) (id caller : String) (db db' : Db)
    → fund_milestone now id caller db ≡ ok (tt, db')
    → Done db db'
fund_milestone-Done now id caller db db' h =
    let (m, c, s, p, t, who, e) = fund_milestone-eq-ok now id caller db db' h in
    rw e (record { logged = kept; moves = move unmoved (funded_at id now m s p) })

pub submit_milestone-Done :
    (now : ℕ) (id actor note : String) (keys : List String) (db db' : Db)
    → submit_milestone now id actor note keys db ≡ ok (tt, db')
    → Done db db'
submit_milestone-Done now id actor note keys db db' h =
    let (m, c, s, p, t, who, e, same, quiet) =
      submit_milestone-eq-ok now id actor note keys db db' h in
    Done_of db db' kept (move unmoved (submitted_at id now m s p)) same quiet e

pub approve_milestone-Done :
    (now : ℕ) (id actor : String) (db db' : Db)
    → approve_milestone now id actor db ≡ ok (tt, db')
    → Done db db'
approve_milestone-Done now id actor db db' h =
    let (m, c, s, p, t, who, e) = approve_milestone-eq-ok now id actor db db' h in
    rw e (record { logged = kept; moves = move unmoved (approved_at id now m s p) })
