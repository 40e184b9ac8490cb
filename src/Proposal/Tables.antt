-- ===== src/Proposal/Tables.antt =====
-- The rows of services/proposal/internal/store/store.go, and the inputs and errors of the service.
use aizorix_freelancer.Base.{String, Bool, true, false, Option, List}
use aizorix_freelancer.Base.Int.{ℤ}
use aizorix_freelancer.Base.Outbox.{Event}

pub data ProposalStatus : Type 0 where
  submitted shortlisted accepted declined withdrawn : ProposalStatus

pub record Proposal : Type 0 where
  pub id : String
  pub project_id : String
  pub freelancer_id : String
  pub cover_letter : String
  pub bid_amount_cents : ℤ
  pub currency : String
  pub estimated_duration_days : Option ℤ
  pub status : ProposalStatus
  pub connects_spent : ℤ

pub record Milestone : Type 0 where
  pub id : String
  pub proposal_id : String
  pub seq : ℤ
  pub title : String
  pub amount_cents : ℤ
  pub due_days : Option ℤ

pub record Answer : Type 0 where
  pub id : String
  pub proposal_id : String
  pub question : String
  pub answer : String

-- The row of `projects`, which the project service writes.
pub record Project : Type 0 where
  pub id : String
  pub client_id : String

pub record Db : Type 0 where
  pub projects : List Project
  pub proposals : List Proposal
  pub milestones : List Milestone
  pub answers : List Answer
  pub outbox : List Event

pub record MilestoneInput : Type 0 where
  pub seq : ℤ
  pub title : String
  pub amount_cents : ℤ
  pub due_days : Option ℤ

pub record AnswerInput : Type 0 where
  pub question : String
  pub answer : String

pub record SubmitInput : Type 0 where
  pub project_id : String
  pub freelancer_id : String
  pub cover_letter : String
  pub bid_amount_cents : ℤ
  pub currency : String
  pub estimated_duration_days : Option ℤ
  pub connects_spent : ℤ
  pub milestones : List MilestoneInput
  pub answers : List AnswerInput

-- `constraint_violation` is any error of the database that the code passes up as it is.
pub data Error : Type 0 where
  invalid_bid duplicate_proposal invalid_state not_found forbidden constraint_violation : Error

abbrev pub is_submitted : ProposalStatus → Bool
is_submitted submitted = true
is_submitted _ = false

abbrev pub is_withdrawable : ProposalStatus → Bool
is_withdrawable submitted = true
is_withdrawable shortlisted = true
is_withdrawable _ = false
