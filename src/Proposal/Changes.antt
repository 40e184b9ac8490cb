-- ===== src/Proposal/Changes.antt =====
-- What the methods of services/proposal/internal/service/service.go do to the proposals.
use aizorix_freelancer.Base.{
  ℕ, suc, String, Bool, false, some, List, [], ◌∷◌, ◌++◌, ◌≡◌, ◌==◌, arith, inl, inr, ap, ◌∙◌,
  Option-cases, Bool-cases,
}
use aizorix_freelancer.Base.Int.{pos, leb_ℤ}
use aizorix_freelancer.Base.Table.{find, update}
use aizorix_freelancer.Base.Tx.{ok, Result-cases}
use aizorix_freelancer.Proposal.Tables.{
  Proposal, ProposalStatus, withdrawn, shortlisted, MilestoneInput, AnswerInput, SubmitInput,
  Project, Db,
}
use aizorix_freelancer.Proposal.Store.{
  has_id, has_pair, has_project_id, insert_proposal, insert_milestone, insert_answer, update_row,
  may_withdraw, may_shortlist, set_status, has_milestone_id, has_seq, has_answer_id,
  project_client_of_proposal, project_client_of, get_proposal, enqueue,
}
use aizorix_freelancer.Proposal.Service.{
  proposal_row, insert_milestones, insert_answers, submit_proposal, withdraw_proposal,
  shortlist_proposal,
}

-- What a request does to the proposals.
pub data Change : Db → Db → Type 0 where
  untouched : {db db' : Db} → db'.proposals ≡ db.proposals → Change db db'
  added :
      {db db' : Db} (p : Proposal)
      → leb_ℤ p.bid_amount_cents (pos 0) ≡ false
      → db'.proposals ≡ db.proposals ++ p ∷ []
      → Change db db'
  moved :
      {db db' : Db} (test : Proposal → Bool) (status : ProposalStatus)
      → db'.proposals ≡ update test (set_status status) db.proposals
      → Change db db'

insert_milestones-left :
    (draw : ℕ → String) (n : ℕ) (id : String) (ms : List MilestoneInput) (db db' : Db)
    (r : Unit {0})
    → insert_milestones draw n id ms db ≡ ok (r, db')
    → db'.proposals ≡ db.proposals
unfolding insert_milestones insert_milestone
insert_milestones-left draw n id [] db db' r h = ground arith
insert_milestones-left draw n id (m ∷ ms) db db' r h =
    elim (Result-cases (insert_milestone (draw n) id m db)) [
      | inl (e, f) ↦ ground arith
      | inr ((u, db1), f) ↦
          let rest = insert_milestones-left draw (suc n) id ms db1 db' r (ground arith) in
          rest ∙ one (draw n) id m db db1 u f
    ]
  where
    one :
        (new_id id : String) (m : MilestoneInput) (db db1 : Db) (u : Unit {0})
        → insert_milestone new_id id m db ≡ ok (u, db1)
        → db1.proposals ≡ db.proposals
    one new_id id m db db1 u f =
        elim (Option-cases (find (has_milestone_id new_id) db.milestones)) [
          | inr (x, s) ↦ ground arith
          | inl k ↦ elim (Option-cases (find (has_seq id m.seq) db.milestones)) [
            | inr (x, s) ↦ ground arith
            | inl l ↦ ground arith
          ]
        ]

insert_answers-left :
    (draw : ℕ → String) (n : ℕ) (id : String) (answers : List AnswerInput) (db db' : Db)
    (r : Unit {0})
    → insert_answers draw n id answers db ≡ ok (r, db')
    → db'.proposals ≡ db.proposals
unfolding insert_answers insert_answer
insert_answers-left draw n id [] db db' r h = ground arith
insert_answers-left draw n id (a ∷ rest) db db' r h =
    elim (Result-cases (insert_answer (draw n) id a db)) [
      | inl (e, f) ↦ ground arith
      | inr ((u, db1), f) ↦
          let others = insert_answers-left draw (suc n) id rest db1 db' r (ground arith) in
          elim (Option-cases (find (has_answer_id (draw n)) db.answers)) [
            | inr (x, s) ↦ ground arith
            | inl k ↦ others ∙ ground arith
          ]
    ]

insert_proposal-eq-ok :
    (p : Proposal) (db db' : Db) (r : Unit {0})
    → insert_proposal p db ≡ ok (r, db')
    → db'.proposals ≡ db.proposals ++ p ∷ []
unfolding insert_proposal
insert_proposal-eq-ok p db db' r h = elim (Option-cases (find (has_id p.id) db.proposals)) [
  | inr (x, s) ↦ ground arith
  | inl n ↦ elim (Option-cases (find (has_pair p.project_id p.freelancer_id) db.proposals)) [
    | inr (x, s) ↦ ground arith
    | inl k ↦ elim (Option-cases (find (has_project_id p.project_id) db.projects)) [
      | inl l ↦ ground arith
      | inr (x, s) ↦ ground arith
    ]
  ]
]

pub submit_proposal-eq-ok :
    (draw_milestone draw_answer : ℕ → String) (new_id : String) (x : SubmitInput) (db db' : Db)
    (r : Proposal)
    → submit_proposal draw_milestone draw_answer new_id x db ≡ ok (r, db')
    → (leb_ℤ x.bid_amount_cents (pos 0) ≡ false)
      × (db'.proposals ≡ db.proposals ++ proposal_row new_id x ∷ [])
unfolding submit_proposal enqueue
submit_proposal-eq-ok draw_milestone draw_answer new_id x db db' r h =
    elim (Bool-cases (leb_ℤ x.bid_amount_cents (pos 0))) [
      | inl b ↦ ground arith
      | inr b ↦ elim (Result-cases (insert_proposal (proposal_row new_id x) db)) [
        | inl (e, f) ↦ ground arith
        | inr ((u, db1), f) ↦
            elim (Result-cases (insert_milestones draw_milestone 0 new_id x.milestones db1)) [
              | inl (e, g) ↦ ground arith
              | inr ((v, db2), g) ↦
                  elim (Result-cases (insert_answers draw_answer 0 new_id x.answers db2)) [
                    | inl (e, k) ↦ ground arith
                    | inr ((w, db3), k) ↦
                        let last : db'.proposals ≡ db3.proposals = ground arith in
                        (
                          b,
                          last
                              ∙ (insert_answers-left draw_answer 0 new_id x.answers db2 db3 w k
                                  ∙ (insert_milestones-left draw_milestone 0 new_id x.milestones db1
                                        db2 v g
                                      ∙ insert_proposal-eq-ok (proposal_row new_id x) db db1 u f)),
                        )
                  ]
            ]
      ]
    ]

pub withdraw_proposal-Change :
    (id freelancer : String) (db db' : Db) (r : Unit {0})
    → withdraw_proposal id freelancer db ≡ ok (r, db')
    → Change db db'
unfolding withdraw_proposal update_row enqueue
withdraw_proposal-Change id freelancer db db' r h =
    elim (Option-cases (find (may_withdraw id freelancer) db.proposals)) [
      | inl n ↦ ground arith
      | inr (p, s) ↦ moved (may_withdraw id freelancer) withdrawn (ground arith)
    ]

pub project_client_of_proposal-eq-ok :
    (id owner : String) (db db' : Db)
    → project_client_of_proposal id db ≡ ok (owner, db')
    → (p : Proposal) × (find (has_id id) db.proposals ≡ some p)
      × (pr : Project) × (find (has_project_id p.project_id) db.projects ≡ some pr)
      × (owner ≡ pr.client_id)
      × (db' ≡ db)
unfolding project_client_of_proposal get_proposal project_client_of
project_client_of_proposal-eq-ok id owner db db' h =
    elim (Option-cases (find (has_id id) db.proposals)) [
      | inl n ↦ ground arith
      | inr (p, s) ↦ elim (Option-cases (find (has_project_id p.project_id) db.projects)) [
        | inl n ↦ ground arith
        | inr (pr, k) ↦ (p, s, pr, k, ground arith, ground arith)
      ]
    ]

pub shortlist_proposal-Change :
    (id actor : String) (db db' : Db) (r : Unit {0})
    → shortlist_proposal id actor db ≡ ok (r, db')
    → Change db db'
unfolding shortlist_proposal update_row enqueue
shortlist_proposal-Change id actor db db' r h =
    elim (Result-cases (project_client_of_proposal id db)) [
      | inl (e, f) ↦ elim (Bool-cases (actor == "")) [ inl a ↦ ground arith | inr a ↦ ground arith ]
      | inr ((owner, db1), f) ↦
          let (p, s, pr, k, same_owner, same) =
            project_client_of_proposal-eq-ok id owner db db1 f in
          elim (Bool-cases (actor == "")) [
            | inl a ↦ ground arith
            | inr a ↦ elim (Bool-cases (owner == actor)) [
              | inr o ↦ ground arith
              | inl o ↦ elim (Option-cases (find (may_shortlist id) db1.proposals)) [
                | inl n ↦ ground arith
                | inr (q, t) ↦
                    let last : db'.proposals
                        ≡ update (may_shortlist id) (set_status shortlisted) db1.proposals =
                      ground arith in
                    moved (may_shortlist id) shortlisted (
                      last
                      ∙ ap (λ d. update (may_shortlist id) (set_status shortlisted) d.proposals)
                          same)
              ]
            ]
          ]
    ]
