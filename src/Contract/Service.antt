-- ===== src/Contract/Service.antt =====
-- The methods of services/contract/internal/service/service.go, with `RequireOneOf` of
-- services/pkg/rbac. What they draw, the time first, and the answer of the proposal service are
-- arguments.
use aizorix_freelancer.Base.{
  ℕ, suc, String, true, false, Option, none, some, List, [], ◌∷◌, ◌||◌, not, ◌==◌, if◌then◌else◌,
  Bool,
}
use aizorix_freelancer.Base.Outbox.{Event, Value, text, cents}
use aizorix_freelancer.Base.Tx.{Result, ok, err, Tx, pure, fail, fail_if, ◌>>=◌, ◌>>◌}
use aizorix_freelancer.Contract.Tables.{
  Contract, ContractStatus, pending_funding, active, disputed, Milestone, MilestoneInput,
  ContractEvent, Dispute, Db, CreateInput, ContractView, Proposal, LookupError, proposal_missing,
  unreachable, Error, not_found, forbidden, invalid_parties, invalid_state, invalid_milestone_state,
  proposal_required,
}
use aizorix_freelancer.Contract.Terms.{derive_contract_terms}
use aizorix_freelancer.Contract.Store.{
  insert_contract, insert_hourly_contract, insert_milestone, insert_contract_event,
  transition_contract, mark_contract_started, fund_row, submit_row, approve_row,
  freelancer_of_contract, insert_deliverable, insert_dispute, current_status, force_status,
  get_contract, list_milestones, list_contract_events, list_for_user, enqueue,
}

-- The actor must be one of the named users.
unfoldable pub require_one_of : String → List String → Tx Db Error (Unit {0})
require_one_of actor [] = fail forbidden
require_one_of actor (a ∷ allowed) =
    let rest = require_one_of actor allowed in if a == actor then pure tt else rest

abbrev pub contract_row : String → CreateInput → Contract
contract_row new_id c = record {
  id = new_id;
  project_id = c.project_id;
  proposal_id = c.proposal_id;
  client_id = c.client_id;
  freelancer_id = c.freelancer_id;
  budget_type = c.budget_type;
  currency = c.currency;
  total_amount_cents = c.total_amount_cents;
  hourly_rate_cents = c.hourly_rate_cents;
  weekly_hour_limit = c.weekly_hour_limit;
  status = pending_funding;
  platform_fee_bps = c.platform_fee_bps;
  started_at = none;
}

-- The loop over the milestones; `draw n` is the id of the n-th row.
unfoldable pub insert_milestones :
    (ℕ → String) → ℕ → String → List MilestoneInput → Tx Db Error (Unit {0})
insert_milestones draw n id [] = pure tt
insert_milestones draw n id (m ∷ ms) = do
  insert_milestone (draw n) id m
  insert_milestones draw (suc n) id ms

abbrev pub transition_event :
    String
    → Option ContractStatus
    → ContractStatus
    → String
    → String
    → List (String × Value)
    → ContractEvent
transition_event id from to name actor payload = record {
  contract_id = id;
  from_status = from;
  to_status = to;
  event = name;
  actor_id = some actor;
  payload = payload;
}

-- The transaction of `CreateFromProposal`, on the derived terms.
unfoldable pub insert_terms : (ℕ → String) → String → CreateInput → Tx Db Error Contract
unfolding insert_contract insert_hourly_contract insert_milestones insert_contract_event
insert_terms draw new_id c = do
  insert_contract (contract_row new_id c)
  if c.budget_type == "hourly"
      then insert_hourly_contract new_id
      else insert_milestones draw 0 new_id c.milestones
  insert_contract_event (transition_event new_id none pending_funding "create" c.client_id [])
  pure (contract_row new_id c)

abbrev pub resolve : Result LookupError Proposal → Result Error Proposal
resolve (ok p) = ok p
resolve (err proposal_missing) = err not_found
resolve (err unreachable) = err forbidden

abbrev pub lift : {A : Type 0} → Result Error A → Tx Db Error A
lift (ok a) = pure a
lift (err e) = fail e

unfoldable pub create_from_proposal :
    (String → Result LookupError Proposal)
    → (ℕ → String)
    → String
    → CreateInput
    → Tx Db Error Contract
unfolding derive_contract_terms insert_terms
create_from_proposal lookup draw new_id c = do
  fail_if (c.proposal_id == "") proposal_required
  fail_if (c.client_id == "") invalid_parties
  p ← lift (resolve (lookup c.proposal_id))
  terms ← lift (derive_contract_terms c p)
  insert_terms draw new_id terms

-- The events on `contract.events`, keyed by the contract.
abbrev pub contract_event : String → String → List (String × Value) → Event
contract_event name id payload = record {
  aggregate_type = "contract";
  aggregate_id = id;
  event_type = name;
  topic = "contract.events";
  partition_key = id;
  payload = payload;
}

unfoldable pub activate_contract : ℕ → String → String → Tx Db Error (Unit {0})
unfolding transition_contract mark_contract_started get_contract insert_contract_event enqueue
activate_contract now id actor = do
  changed ← transition_contract id pending_funding active
  fail_if (not changed) invalid_state
  mark_contract_started now id
  c ← get_contract id
  insert_contract_event (transition_event id (some pending_funding) active "activate" actor [])
  enqueue (
      contract_event "contract.activated" id (
        ("contract_id", text id)
        ∷ ("client_id", text c.client_id)
        ∷ ("freelancer_id", text c.freelancer_id)
        ∷ ("budget_type", text c.budget_type)
        ∷ []))

unfoldable pub fund_milestone : ℕ → String → String → Tx Db Error (Unit {0})
unfolding fund_row get_contract
fund_milestone now id caller = do
  moved ← fund_row now id
  fail_if (not moved.1) invalid_milestone_state
  c ← get_contract moved.0.contract_id
  fail_if (not (caller == c.client_id)) forbidden

unfoldable pub submit_milestone :
    ℕ → String → String → String → List String → Tx Db Error (Unit {0})
unfolding submit_row freelancer_of_contract insert_deliverable
submit_milestone now id actor note s3_keys = do
  moved ← submit_row now id
  fail_if (not moved.1) invalid_milestone_state
  freelancer ← freelancer_of_contract moved.0.contract_id
  fail_if (not (actor == freelancer)) forbidden
  if not (note == "") || elim s3_keys [ [] ↦ false | _ ∷ _ ↦ true ]
      then insert_deliverable
          (record { milestone_id = id; submitted_by = actor; note = note; s3_keys = s3_keys })
      else pure tt

abbrev pub approved_event : String → Milestone → Contract → Event
approved_event id m c = contract_event "milestone.approved" m.contract_id (
    ("milestone_id", text id)
    ∷ ("contract_id", text m.contract_id)
    ∷ ("amount_cents", cents m.amount_cents)
    ∷ ("freelancer_id", text c.freelancer_id)
    ∷ [])

unfoldable pub approve_milestone : ℕ → String → String → Tx Db Error (Unit {0})
unfolding approve_row get_contract enqueue
approve_milestone now id actor = do
  moved ← approve_row now id
  fail_if (not moved.1) invalid_milestone_state
  c ← get_contract moved.0.contract_id
  fail_if (not (actor == c.client_id)) forbidden
  enqueue (approved_event id moved.0 c)

unfoldable pub raise_dispute : (String → Bool) → Dispute → Tx Db Error String
unfolding current_status get_contract require_one_of insert_dispute force_status
    insert_contract_event enqueue
raise_dispute is_user x = do
  from ← current_status x.contract_id
  c ← get_contract x.contract_id
  require_one_of x.raised_by (c.client_id ∷ c.freelancer_id ∷ [])
  id ← insert_dispute is_user x
  force_status x.contract_id disputed
  insert_contract_event (
      transition_event x.contract_id (some from) disputed "dispute" x.raised_by
        (("dispute_id", text id) ∷ ("reason", text x.reason) ∷ []))
  enqueue (
      contract_event "contract.disputed" x.contract_id (
        ("contract_id", text x.contract_id)
        ∷ ("dispute_id", text id)
        ∷ ("raised_by", text x.raised_by)
        ∷ ("against", text x.against)
        ∷ []))
  pure id

-- The reads that only a party may make.
unfoldable pub require_party : String → String → Tx Db Error Contract
unfolding get_contract require_one_of
require_party id user = do
  c ← get_contract id
  require_one_of user (c.client_id ∷ c.freelancer_id ∷ [])
  pure c

-- `GetContract`
unfoldable pub get_contract_view : String → String → Tx Db Error ContractView
unfolding require_party list_milestones
get_contract_view id user = do
  c ← require_party id user
  ms ← list_milestones id
  pure (record { contract = c; milestones = ms })

unfoldable pub contract_events : String → String → Tx Db Error (List ContractEvent)
unfolding require_party list_contract_events
contract_events id user = do require_party id user; list_contract_events id

unfoldable pub contract_parties : String → Tx Db Error (String × String × ContractStatus)
unfolding get_contract
contract_parties id = do c ← get_contract id; pure (c.client_id, c.freelancer_id, c.status)

unfoldable pub list_contracts_for_user : String → String → Tx Db Error (List Contract)
unfolding list_for_user
list_contracts_for_user user role =
    list_for_user user (if role == "freelancer" then role else "client")
