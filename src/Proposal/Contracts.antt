-- ===== src/Proposal/Contracts.antt =====
-- The contract service as a client of the proposal service: `CreateFromProposal` of
-- services/contract/internal/service/service.go with the answers of `ProposalForContract` of
-- services/proposal/internal/service/service.go.
use aizorix_freelancer.Base.{
  ℕ, String, false, some, List, [], ◌≡◌, ◌≢◌, arith, inl, inr, ap, sym, ◌∙◌, Option-cases,
}
use aizorix_freelancer.Base.Int.{pos, leb_ℤ}
use aizorix_freelancer.Base.Table.{find}
use aizorix_freelancer.Base.Rows.{All-find}
use aizorix_freelancer.Base.Tx.{Result, ok, err}
use aizorix_freelancer.Contract.Tables.{
  Contract, CreateInput, LookupError, proposal_missing, unreachable,
}
use aizorix_freelancer.Contract.Tables as CT
use aizorix_freelancer.Contract.Service.{create_from_proposal}
use aizorix_freelancer.Contract.Promises.Proposals.{create_from_proposal_terms}
use aizorix_freelancer.Proposal.Tables.{Proposal, withdrawn, Project, Db, Error, not_found}
use aizorix_freelancer.Proposal.Store.{
  has_id, has_project_id, get_proposal, project_client_of, project_client_of_proposal,
}
use aizorix_freelancer.Proposal.Service.{ContractProposal, proposal_for_contract, status_text}
use aizorix_freelancer.Proposal.Requests.{Request, serve, HasPositiveBid, serve-AllPositive}

-- The JSON body, which both services give the same fields.
abbrev pub as_proposal : ContractProposal → CT.Proposal
as_proposal p = record {
  proposal_id = p.proposal_id;
  project_id = p.project_id;
  project_client_id = p.project_client_id;
  freelancer_id = p.freelancer_id;
  status = p.status;
  bid_amount_cents = p.bid_amount_cents;
  currency = p.currency;
}

-- A missing proposal or project is answered with 404, and so looked up as missing.
abbrev pub as_answer : Result Error (ContractProposal × Db) → Result LookupError CT.Proposal
as_answer (ok (p, db)) = ok (as_proposal p)
as_answer (err not_found) = err proposal_missing
as_answer (err other) = err unreachable

-- The lookup of the contract service, answered from the tables of the proposal service.
abbrev pub lookup_in : Db → String → Result LookupError CT.Proposal
lookup_in db id = as_answer (proposal_for_contract id db)

abbrev pub no_proposals : List Project → Db
no_proposals projects = record {
  projects = projects;
  proposals = [];
  milestones = [];
  answers = [];
  outbox = [];
}

lookup_in-eq-ok :
    (db : Db) (id : String) (q : CT.Proposal)
    → lookup_in db id ≡ ok q
    → (p : Proposal) × (pr : Project) × (find (has_id id) db.proposals ≡ some p)
      × (find (has_project_id p.project_id) db.projects ≡ some pr)
      × (q.project_client_id ≡ pr.client_id)
      × (q.project_id ≡ p.project_id)
      × (q.freelancer_id ≡ p.freelancer_id)
      × (q.status ≡ status_text p.status)
      × (q.bid_amount_cents ≡ p.bid_amount_cents)
unfolding proposal_for_contract project_client_of_proposal get_proposal project_client_of
lookup_in-eq-ok db id q h = elim (Option-cases (find (has_id id) db.proposals)) [
  | inl n ↦ ground arith
  | inr (p, s) ↦ elim (Option-cases (find (has_project_id p.project_id) db.projects)) [
    | inl n ↦ ground arith
    | inr (pr, k) ↦
        (p, pr, s, k, ground arith, ground arith, ground arith, ground arith, ground arith)
  ]
]

-- Where the contract service is answered from the tables that requests to the proposal service have
-- made: a contract that is created from a proposal has the project and the freelancer of a stored
-- proposal of that id, and the client of its project. The proposal is not withdrawn, its bid is
-- positive, and a fixed price is the bid.
pub create_from_stored_proposal :
    (rs : List Request) (projects : List Project) (draw : ℕ → String) (new_id : String)
    (c : CreateInput) (db db' : CT.Db) (row : Contract)
    → let stored = serve rs (no_proposals projects) in
      create_from_proposal (lookup_in stored) draw new_id c db ≡ ok (row, db')
      → (p : Proposal) × (pr : Project) × (find (has_id c.proposal_id) stored.proposals ≡ some p)
        × (find (has_project_id p.project_id) stored.projects ≡ some pr)
        × (row.client_id ≡ pr.client_id)
        × (row.project_id ≡ p.project_id)
        × (row.freelancer_id ≡ p.freelancer_id)
        × (p.status ≢ withdrawn)
        × (leb_ℤ p.bid_amount_cents (pos 0) ≡ false)
        × (c.budget_type ≡ "fixed" → row.total_amount_cents ≡ some p.bid_amount_cents)
create_from_stored_proposal rs projects draw new_id c db db' row h =
    let stored = serve rs (no_proposals projects) in
    let (q, t, answer, d, same, _, _) =
      create_from_proposal_terms (lookup_in stored) draw new_id c db db' row h in
    let (p, pr, s, k, client, project, freelancer, status, bid) =
      lookup_in-eq-ok stored c.proposal_id q answer in
    (
      p,
      pr,
      s,
      k,
      ap (λ r. r.client_id) same ∙ (d.client ∙ (sym d.client_owns_project ∙ client)),
      ap (λ r. r.project_id) same ∙ (d.project ∙ project),
      ap (λ r. r.freelancer_id) same ∙ (d.freelancer ∙ freelancer),
      λ w. d.bid_open.0 (status ∙ ap status_text w),
      All-find HasPositiveBid (has_id c.proposal_id) p stored.proposals
          (serve-AllPositive rs (no_proposals projects) tt) s,
      λ e. ap (λ r. r.total_amount_cents) same ∙ ((d.fixed_price e).0 ∙ ap some bid),
    )
