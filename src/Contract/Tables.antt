-- ===== src/Contract/Tables.antt =====
-- The rows of services/contract/internal/store/store.go, and the inputs and errors of the service.
-- Times are numbers; what the code never reads or writes (ended_at, end_reason, created_at, the
-- resolution of a dispute) is left out.
use aizorix_freelancer.Base.{ℕ, String, Bool, true, false, Option, List}
use aizorix_freelancer.Base.Int.{ℤ}
use aizorix_freelancer.Base.Outbox.{Event, Value}

pub data ContractStatus : Type 0 where
  pending_funding active paused completed cancelled disputed : ContractStatus

pub record Contract : Type 0 where
  pub id : String
  pub project_id : String
  pub proposal_id : String
  pub client_id : String
  pub freelancer_id : String
  pub budget_type : String
  pub currency : String
  pub total_amount_cents : Option ℤ
  pub hourly_rate_cents : Option ℤ
  pub weekly_hour_limit : Option ℤ
  pub status : ContractStatus
  pub platform_fee_bps : ℤ
  pub started_at : Option ℕ

pub data MilestoneStatus : Type 0 where
  pending funded submitted approved revision_requested released refunded : MilestoneStatus

pub record Milestone : Type 0 where
  pub id : String
  pub contract_id : String
  pub seq : ℤ
  pub title : String
  pub description : Option String
  pub amount_cents : ℤ
  pub status : MilestoneStatus
  pub due_at : Option ℕ
  pub funded_at : Option ℕ
  pub submitted_at : Option ℕ
  pub approved_at : Option ℕ

pub record MilestoneInput : Type 0 where
  pub seq : ℤ
  pub title : String
  pub description : Option String
  pub amount_cents : ℤ
  pub due_at : Option ℕ

-- A row of `contract_events`.
pub record ContractEvent : Type 0 where
  pub contract_id : String
  pub from_status : Option ContractStatus
  pub to_status : ContractStatus
  pub event : String
  pub actor_id : Option String
  pub payload : List (String × Value)

pub record Dispute : Type 0 where
  pub id : String
  pub contract_id : String
  pub milestone_id : Option String
  pub raised_by : String
  pub against : String
  pub reason : String
  pub amount_cents : Option ℤ

pub record Deliverable : Type 0 where
  pub milestone_id : String
  pub submitted_by : String
  pub note : String
  pub s3_keys : List String

pub record Db : Type 0 where
  pub contracts : List Contract
  pub hourly_contracts : List String
  pub milestones : List Milestone
  pub contract_events : List ContractEvent
  pub deliverables : List Deliverable
  pub disputes : List Dispute
  pub outbox : List Event

pub record CreateInput : Type 0 where
  pub project_id : String
  pub proposal_id : String
  pub client_id : String
  pub freelancer_id : String
  pub budget_type : String
  pub currency : String
  pub total_amount_cents : Option ℤ
  pub hourly_rate_cents : Option ℤ
  pub weekly_hour_limit : Option ℤ
  pub platform_fee_bps : ℤ
  pub milestones : List MilestoneInput

pub record ContractView : Type 0 where
  pub contract : Contract
  pub milestones : List Milestone

-- What the proposal service answers.
pub record Proposal : Type 0 where
  pub proposal_id : String
  pub project_id : String
  pub project_client_id : String
  pub freelancer_id : String
  pub status : String
  pub bid_amount_cents : ℤ
  pub currency : String

pub data LookupError : Type 0 where
  proposal_missing unreachable : LookupError

-- `constraint_violation` is any error of the database that the code passes up as it is.
pub data Error : Type 0 where
  not_found forbidden invalid_parties no_milestones invalid_state invalid_milestone_state : Error
  proposal_required proposal_not_selected proposal_mismatch constraint_violation : Error

abbrev pub same_status : ContractStatus → ContractStatus → Bool
same_status pending_funding pending_funding = true
same_status active active = true
same_status paused paused = true
same_status completed completed = true
same_status cancelled cancelled = true
same_status disputed disputed = true
same_status _ _ = false

abbrev pub is_pending : MilestoneStatus → Bool
is_pending pending = true
is_pending _ = false

abbrev pub is_funded : MilestoneStatus → Bool
is_funded funded = true
is_funded _ = false

abbrev pub is_submitted : MilestoneStatus → Bool
is_submitted submitted = true
is_submitted _ = false
