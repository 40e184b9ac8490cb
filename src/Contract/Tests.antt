-- ===== src/Contract/Tests.antt =====
-- Runs of the contract service, and its theorems at them.
use aizorix_freelancer.Base.{
  ℕ, String, some, none, List, [], ◌∷◌, ◌≡◌, refl, arith, ◌⊎◌, ◌↔◌, ◌≢◌, Bool, true, false, ◌||◌,
  ◌==◌,
}
use aizorix_freelancer.Base.Int.{ℤ, pos, ◌+ℤ◌, wrap_int64}
use aizorix_freelancer.Base.Table.{find}
use aizorix_freelancer.Base.Tx.{Result, ok, err, transact}
use aizorix_freelancer.Contract.Tables.{
  Contract, Milestone, MilestoneInput, MilestoneStatus, Db, CreateInput, ContractView, Proposal,
  LookupError, Dispute, invalid_state, forbidden, constraint_violation,
}
use aizorix_freelancer.Contract.Terms.{derive_contract_terms, price, sum_amounts}
use aizorix_freelancer.Contract.Store.{insert_milestone, has_id, has_milestone_id}
use aizorix_freelancer.Contract.Service.{
  contract_row, create_from_proposal, activate_contract, approve_milestone, fund_milestone,
  submit_milestone, raise_dispute, get_contract_view,
}
use aizorix_freelancer.Contract.History.{IsLogged}
use aizorix_freelancer.Contract.Milestones.{AllStamped, Along}
use aizorix_freelancer.Contract.Lifecycle.Activate.{activate_contract_any_actor, started}
use aizorix_freelancer.Contract.Requests.{
  Request, create, activate, fund, submit, serve, empty, empty-Journaled, serve-Journaled,
  serve-IsLogged, serve-AllStamped, serve-milestone_forward, activate_contract_once,
}
use aizorix_freelancer.Contract.Promises.Views.{IsListing, get_contract_view_parties}
use aizorix_freelancer.Contract.Promises.Sums.{total, sum_amounts_exact}
use aizorix_freelancer.Contract.Promises.Proposals.{
  IsDerived, derive_contract_terms-IsDerived, create_from_proposal_terms,
}
use aizorix_freelancer.Contract.Promises.Approval.{approve_milestone_iff}
use aizorix_freelancer.Contract.Promises.Disputes.{IsParty, IsRaised, raise_dispute_parties}

abbrev lookup : String → Result LookupError Proposal
lookup id = ok (record {
  proposal_id = id;
  project_id = "site";
  project_client_id = "ann";
  freelancer_id = "bob";
  status = "shortlisted";
  bid_amount_cents = pos 500;
  currency = "EUR";
})

abbrev proposal : Proposal
proposal = record {
  proposal_id = "bid";
  project_id = "site";
  project_client_id = "ann";
  freelancer_id = "bob";
  status = "shortlisted";
  bid_amount_cents = pos 500;
  currency = "EUR";
}

abbrev draw : ℕ → String
draw _ = "design"

abbrev ann : String
ann = "ann"

abbrev bob : String
bob = "bob"

abbrev eve : String
eve = "eve"

-- A request that names another freelancer and no fee.
abbrev input : CreateInput
input = record {
  project_id = "";
  proposal_id = "bid";
  client_id = "ann";
  freelancer_id = "eve";
  budget_type = "fixed";
  currency = "";
  total_amount_cents = some (pos 1);
  hourly_rate_cents = none;
  weekly_hour_limit = none;
  platform_fee_bps = pos 0;
  milestones =
      record {
        seq = pos 1;
        title = "Design";
        description = none;
        amount_cents = pos 500;
        due_at = none;
      }
      ∷ [];
}

abbrev terms : CreateInput
terms = record input {
  project_id = "site";
  freelancer_id = "bob";
  currency = "EUR";
  total_amount_cents = some (pos 500);
  platform_fee_bps = pos 1000;
}

abbrev job : Contract
job = contract_row "job" terms

abbrev opening : List Request
opening = create lookup draw "job" input ∷ []

abbrev work : List Request
work = activate 1 "job" "eve" ∷ fund 2 "design" "ann" ∷ submit 3 "design" "bob" "done" [] ∷ []

abbrev quarrel : Dispute
quarrel = record {
  id = "d1";
  contract_id = "job";
  milestone_id = some "design";
  raised_by = "ann";
  against = "bob";
  reason = "late";
  amount_cents = none;
}

serve-IsLogged_example :
    let db = serve (create lookup draw "job" input ∷ work) empty in
    IsLogged db.contracts db.contract_events
serve-IsLogged_example = serve-IsLogged (create lookup draw "job" input ∷ work)

serve-AllStamped_example :
    AllStamped (serve (create lookup draw "job" input ∷ work) empty).milestones
serve-AllStamped_example = serve-AllStamped (create lookup draw "job" input ∷ work)

serve-milestone_forward_example :
    (y : Milestone) × (find
        (has_milestone_id "design")
        (serve work (serve opening empty)).milestones
      ≡ some y)
    × Along MilestoneStatus.pending y.status
unfolding serve create_from_proposal ◌+ℤ◌ price derive_contract_terms sum_amounts wrap_int64
    insert_milestone
serve-milestone_forward_example =
    serve-milestone_forward work (serve opening empty) "design" _
      (serve-Journaled opening empty empty-Journaled) refl

activate_contract_once_example :
    activate_contract 9 "job" "ann"
      (serve work (transact (activate_contract 1 "job" "eve") (serve opening empty)).1)
    ≡ err invalid_state
unfolding serve create_from_proposal ◌+ℤ◌ price derive_contract_terms sum_amounts wrap_int64
    insert_milestone activate_contract
activate_contract_once_example =
    activate_contract_once 1 9 "job" "eve" "ann" (serve opening empty) _ work
      (serve-Journaled opening empty empty-Journaled) refl

activate_contract_any_actor_example :
    (db' : Db) × (activate_contract 1 "job" "eve" (serve opening empty) ≡ ok (tt, db'))
    × (find (has_id "job") db'.contracts ≡ some (started 1 job))
unfolding serve create_from_proposal ◌+ℤ◌ price derive_contract_terms sum_amounts wrap_int64
    insert_milestone
activate_contract_any_actor_example =
    activate_contract_any_actor 1 "job" "eve" (serve opening empty) _
      ((serve-Journaled opening empty empty-Journaled).unique) refl refl

approve_milestone_iff_example :
    ((db' : Db) × (approve_milestone 4 "design" "ann" (serve work (serve opening empty))
        ≡ ok (tt, db')))
    ↔ ((MilestoneStatus.submitted ≡ MilestoneStatus.submitted) × (ann ≡ ann))
unfolding serve create_from_proposal ◌+ℤ◌ price derive_contract_terms sum_amounts wrap_int64
    insert_milestone activate_contract submit_milestone fund_milestone
approve_milestone_iff_example =
    approve_milestone_iff 4 "design" "ann" (serve work (serve opening empty)) _ _ refl refl

derive_contract_terms-IsDerived_example : IsDerived input proposal terms
unfolding derive_contract_terms ◌+ℤ◌ sum_amounts wrap_int64
derive_contract_terms-IsDerived_example = derive_contract_terms-IsDerived input _ proposal refl

create_from_proposal_terms_example :
    (p : Proposal) × (t : CreateInput) × (lookup "bid" ≡ ok p)
    × IsDerived input p t
    × (job ≡ contract_row "job" t)
    × (find (has_id "job") empty.contracts ≡ none)
    × (find (has_id "job") (serve opening empty).contracts ≡ some job)
unfolding serve create_from_proposal ◌+ℤ◌ price derive_contract_terms sum_amounts wrap_int64
    insert_milestone
create_from_proposal_terms_example =
    create_from_proposal_terms lookup draw "job" input empty _ _ refl

-- Ann and Bob are in the table of the users.
abbrev known : String → Bool
known user = user == "ann" || user == "bob"

raise_dispute_parties_example :
    (IsParty ann job
      × (((true ≡ true) × IsRaised known quarrel (serve opening empty) job)
          ⊎ ((true ≡ false)
              × (raise_dispute known quarrel (serve opening empty) ≡ err constraint_violation))))
    ⊎ ((ann ≢ ann)
        × (ann ≢ bob)
        × (raise_dispute known quarrel (serve opening empty) ≡ err forbidden))
unfolding serve create_from_proposal ◌+ℤ◌ price derive_contract_terms sum_amounts wrap_int64
    insert_milestone
raise_dispute_parties_example =
    raise_dispute_parties known quarrel (serve opening empty) job refl refl

abbrev priced : ℤ → MilestoneInput
priced a = record { seq = pos 1; title = ""; description = none; amount_cents = a; due_at = none }

-- Three positive amounts whose int64 sum is 500 cents.
wrapped_breakdown :
    sum_amounts
      (pos 0)
      (priced (pos 9223372036854775807) ∷ priced (pos 9223372036854775807) ∷ priced (pos 502) ∷ [])
    ≡ pos 500
unfolding sum_amounts wrap_int64 ◌+ℤ◌
wrapped_breakdown = refl

sum_amounts_exact_example :
    sum_amounts (pos 0) (priced (pos 200) ∷ priced (pos 300) ∷ [])
    ≡ total (priced (pos 200) ∷ priced (pos 300) ∷ [])
unfolding ◌+ℤ◌
sum_amounts_exact_example =
    sum_amounts_exact (priced (pos 200) ∷ priced (pos 300) ∷ []) (omega arith, (omega arith, tt))
      (omega arith)

get_contract_view_parties_example :
    (((bob ≡ ann) ⊎ (bob ≡ bob))
      × ((v : ContractView) × (get_contract_view "job" bob (serve opening empty)
            ≡ ok (v, serve opening empty))
          × (v.contract ≡ job)
          × IsListing "job" (serve opening empty).milestones v.milestones))
    ⊎ ((bob ≢ ann)
        × (bob ≢ bob)
        × (get_contract_view "job" bob (serve opening empty) ≡ err forbidden))
unfolding serve create_from_proposal ◌+ℤ◌ price derive_contract_terms sum_amounts wrap_int64
    insert_milestone
get_contract_view_parties_example =
    get_contract_view_parties "job" bob (serve opening empty) job refl
