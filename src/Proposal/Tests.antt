-- ===== src/Proposal/Tests.antt =====
-- The proposal service on concrete requests, with the contract service as its client.
use aizorix_freelancer.Base.{
  ℕ, String, false, none, some, List, [], ◌∷◌, ◌≡◌, ◌≢◌, refl, ◌=ℕ=◌, if◌then◌else◌,
}
use aizorix_freelancer.Base.Int.{pos, leb_ℤ}
use aizorix_freelancer.Base.Table.{find}
use aizorix_freelancer.Base.Tx.{Result, ok, err, transact}
use aizorix_freelancer.Contract.Tables.{CreateInput}
use aizorix_freelancer.Contract.Requests.{empty}
use aizorix_freelancer.Contract.Service.{create_from_proposal}
use aizorix_freelancer.Proposal.Tables.{
  Proposal, Project, SubmitInput, Db, withdrawn, duplicate_proposal,
}
use aizorix_freelancer.Proposal.Store.{has_id, has_project_id}
use aizorix_freelancer.Proposal.Service.{submit_proposal, proposal_for_contract, shortlist_proposal}
use aizorix_freelancer.Proposal.Requests.{Request, submit, withdraw, shortlist, serve}
use aizorix_freelancer.Proposal.Once.{submit_proposal_once}
use aizorix_freelancer.Proposal.Contracts.{no_proposals, create_from_stored_proposal}

abbrev draw : ℕ → String
draw n = if n =ℕ= 0 then "row 0" else "row 1"

abbrev site : Project
site = record { id = "site"; client_id = "client" }

abbrev bid : SubmitInput
bid = record {
  project_id = "site";
  freelancer_id = "f";
  cover_letter = "Hello";
  bid_amount_cents = pos 5000;
  currency = "";
  estimated_duration_days = none;
  connects_spent = pos 2;
  milestones = [];
  answers = [];
}

abbrev projects : List Project
projects = site ∷ []

abbrev after : {E A : Type 0} → Result E (A × Db) → Db
after (ok (_, db)) = db
after _ = no_proposals []

-- A freelancer who has withdrawn cannot submit again.
submit_proposal_once_example :
    let db = after (submit_proposal draw draw "p" bid (no_proposals projects)) in
    transact (submit_proposal draw draw "q" bid) (serve (withdraw "p" "f" ∷ []) db)
    ≡ (err duplicate_proposal, serve (withdraw "p" "f" ∷ []) db)
unfolding submit_proposal
submit_proposal_once_example =
    submit_proposal_once draw draw draw draw "p" "q" bid bid (no_proposals projects) _ _
      (withdraw "p" "f" ∷ []) refl refl refl refl

abbrev offers : List Request
offers = submit draw draw "p" bid ∷ shortlist "p" "client" ∷ []

abbrev order : CreateInput
order = record {
  project_id = "site";
  proposal_id = "p";
  client_id = "client";
  freelancer_id = "";
  budget_type = "hourly";
  currency = "";
  total_amount_cents = none;
  hourly_rate_cents = none;
  weekly_hour_limit = none;
  platform_fee_bps = pos 0;
  milestones = [];
}

create_from_stored_proposal_example :
    let stored = serve offers (no_proposals projects) in
    (p : Proposal) × (pr : Project) × (find (has_id "p") stored.proposals ≡ some p)
    × (find (has_project_id p.project_id) stored.projects ≡ some pr)
    × ("client" ≡ pr.client_id)
    × ("site" ≡ p.project_id)
    × ("f" ≡ p.freelancer_id)
    × (p.status ≢ withdrawn)
    × (leb_ℤ p.bid_amount_cents (pos 0) ≡ false)
    × (order.budget_type ≡ "fixed" → none ≡ some p.bid_amount_cents)
unfolding serve create_from_proposal submit_proposal proposal_for_contract shortlist_proposal
create_from_stored_proposal_example =
    create_from_stored_proposal offers projects draw "job" order empty _ _ refl
