-- ===== src/Proposal/Service.antt =====
-- The methods of services/proposal/internal/service/service.go.
use aizorix_freelancer.Base.{ℕ, suc, String, List, [], ◌∷◌, ◌==◌, not, if◌then◌else◌}
use aizorix_freelancer.Base.Int.{ℤ, pos, leb_ℤ}
use aizorix_freelancer.Base.Outbox.{Event, Value, text, cents}
use aizorix_freelancer.Base.Tx.{Tx, pure, fail_if, ◌>>=◌, ◌>>◌}
use aizorix_freelancer.Proposal.Tables.{
  Proposal, ProposalStatus, submitted, shortlisted, accepted, declined, withdrawn, Milestone,
  MilestoneInput, AnswerInput, SubmitInput, Db, Error, invalid_bid, invalid_state, forbidden,
}
use aizorix_freelancer.Proposal.Store.{
  insert_proposal, insert_milestone, insert_answer, update_row, withdraw_row, shortlist_row,
  project_client_of_proposal, get_proposal, list_milestones, enqueue,
}

-- The currency is USD where none is given.
abbrev pub currency_of : SubmitInput → String
currency_of x = if x.currency == "" then "USD" else x.currency

abbrev pub proposal_row : String → SubmitInput → Proposal
proposal_row new_id x = record {
  id = new_id;
  project_id = x.project_id;
  freelancer_id = x.freelancer_id;
  cover_letter = x.cover_letter;
  bid_amount_cents = x.bid_amount_cents;
  currency = currency_of x;
  estimated_duration_days = x.estimated_duration_days;
  status = submitted;
  connects_spent = x.connects_spent;
}

unfoldable pub insert_milestones :
    (ℕ → String) → ℕ → String → List MilestoneInput → Tx Db Error (Unit {0})
insert_milestones draw n id [] = pure tt
insert_milestones draw n id (m ∷ ms) = do
  insert_milestone (draw n) id m
  insert_milestones draw (suc n) id ms

unfoldable pub insert_answers :
    (ℕ → String) → ℕ → String → List AnswerInput → Tx Db Error (Unit {0})
insert_answers draw n id [] = pure tt
insert_answers draw n id (a ∷ as') = do
  insert_answer (draw n) id a
  insert_answers draw (suc n) id as'

abbrev pub proposal_event : String → String → String → List (String × Value) → Event
proposal_event id name key payload = record {
  aggregate_type = "proposal";
  aggregate_id = id;
  event_type = name;
  topic = "proposal.events";
  partition_key = key;
  payload = payload;
}

abbrev pub submitted_event : String → SubmitInput → Event
submitted_event id x = proposal_event id "proposal.submitted" x.project_id (
    ("proposal_id", text id)
    ∷ ("project_id", text x.project_id)
    ∷ ("freelancer_id", text x.freelancer_id)
    ∷ ("bid_amount_cents", cents x.bid_amount_cents)
    ∷ [])

unfoldable pub submit_proposal :
    (ℕ → String) → (ℕ → String) → String → SubmitInput → Tx Db Error Proposal
unfolding insert_proposal insert_milestones insert_answers enqueue
submit_proposal draw_milestone draw_answer new_id x = do
  fail_if (leb_ℤ x.bid_amount_cents (pos 0)) invalid_bid
  insert_proposal (proposal_row new_id x)
  insert_milestones draw_milestone 0 new_id x.milestones
  insert_answers draw_answer 0 new_id x.answers
  enqueue (submitted_event new_id x)
  pure (proposal_row new_id x)

unfoldable pub withdraw_proposal : String → String → Tx Db Error (Unit {0})
unfolding update_row enqueue
withdraw_proposal id freelancer = do
  changed ← withdraw_row id freelancer
  fail_if (not changed) invalid_state
  enqueue (
      proposal_event id "proposal.withdrawn" id
        (("proposal_id", text id) ∷ ("freelancer_id", text freelancer) ∷ []))

unfoldable pub shortlist_proposal : String → String → Tx Db Error (Unit {0})
unfolding project_client_of_proposal update_row enqueue
shortlist_proposal id actor = do
  fail_if (actor == "") forbidden
  owner ← project_client_of_proposal id
  fail_if (not (owner == actor)) forbidden
  changed ← shortlist_row id
  fail_if (not changed) invalid_state
  enqueue (
      proposal_event id "proposal.shortlisted" id
        (("proposal_id", text id) ∷ ("client_id", text actor) ∷ []))

abbrev pub status_text : ProposalStatus → String
status_text submitted = "submitted"
status_text shortlisted = "shortlisted"
status_text accepted = "accepted"
status_text declined = "declined"
status_text withdrawn = "withdrawn"

-- What the contract service is told.
pub record ContractProposal : Type 0 where
  pub proposal_id : String
  pub project_id : String
  pub project_client_id : String
  pub freelancer_id : String
  pub status : String
  pub bid_amount_cents : ℤ
  pub currency : String

unfoldable pub proposal_for_contract : String → Tx Db Error ContractProposal
unfolding get_proposal project_client_of_proposal
proposal_for_contract id = do
  p ← get_proposal id
  client ← project_client_of_proposal id
  pure (record {
    proposal_id = p.id;
    project_id = p.project_id;
    project_client_id = client;
    freelancer_id = p.freelancer_id;
    status = status_text p.status;
    bid_amount_cents = p.bid_amount_cents;
    currency = p.currency;
  })

unfoldable pub get_proposal_view : String → Tx Db Error (Proposal × List Milestone)
unfolding get_proposal list_milestones
get_proposal_view id = do p ← get_proposal id; ms ← list_milestones id; pure (p, ms)
