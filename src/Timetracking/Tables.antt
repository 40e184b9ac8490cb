-- ===== src/Timetracking/Tables.antt =====
-- The rows of services/timetracking/internal/store/store.go, and the inputs and errors of the
-- service. Times are seconds.
use aizorix_freelancer.Base.{ℕ, String, Bool, Option, List}
use aizorix_freelancer.Base.Int.{ℤ}
use aizorix_freelancer.Base.Outbox.{Event}

-- `opened` is the text 'open'.
pub data SessionStatus : Type 0 where
  opened closed discarded : SessionStatus

pub record Session : Type 0 where
  pub id : String
  pub contract_id : String
  pub freelancer_id : String
  pub device_id : Option String
  pub status : SessionStatus
  pub started_at : ℕ
  pub ended_at : Option ℕ
  pub timezone : String
  pub billing_week : String
  pub memo : Option String
  pub active_seconds : ℕ
  pub idle_seconds : ℕ
  pub billed_seconds : ℕ
  pub avg_activity_pct : Option ℕ

pub record Slice : Type 0 where
  pub session_id : String
  pub contract_id : String
  pub slice_start : ℕ
  pub slice_end : ℕ
  pub keyboard_events : ℤ
  pub mouse_events : ℤ
  pub active_seconds : ℕ
  pub activity_pct : ℕ
  pub active_app : String
  pub active_app_title : String
  pub browser_host : String
  pub screenshot_id : Option String
  pub is_manual : Bool
  pub flagged : Bool
  pub flag_reason : String

pub record Timesheet : Type 0 where
  pub contract_id : String
  pub billing_week : String
  pub total_seconds : ℕ
  pub billable_seconds : ℕ
  pub amount_cents : ℤ
  pub avg_activity_pct : ℕ
  pub status : String

-- The row of `contracts`, which the contract service writes.
pub record ContractRow : Type 0 where
  pub id : String
  pub hourly_rate_cents : Option ℤ
  pub weekly_hour_limit : Option ℤ

pub record Db : Type 0 where
  pub work_sessions : List Session
  pub time_slices : List Slice
  pub timesheets : List Timesheet
  pub contracts : List ContractRow
  pub outbox : List Event

pub record ContractTerms : Type 0 where
  pub hourly_rate_cents : ℤ
  pub weekly_hour_limit : ℤ

pub record Sample : Type 0 where
  pub at : ℕ
  pub keyboard_count : ℤ
  pub mouse_count : ℤ
  pub mouse_distance : ℤ

-- What the activity algorithm computes of a slice.
pub record SliceResult : Type 0 where
  pub activity_pct : ℕ
  pub active_seconds : ℕ
  pub suspicious : Bool
  pub suspect_reasons : List String

pub record IncomingSlice : Type 0 where
  pub session_id : String
  pub contract_id : String
  pub slice_start : ℕ
  pub slice_end : ℕ
  pub samples : List Sample
  pub active_app : String
  pub active_app_title : String
  pub browser_host : String
  pub screenshot_id : String
  pub is_manual : Bool

-- What the contract service answers.
pub record Parties : Type 0 where
  pub contract_id : String
  pub client_id : String
  pub freelancer_id : String
  pub status : String

pub record StartResult : Type 0 where
  pub session_id : String
  pub billing_week : String
  pub capture_interval : ℕ

pub record CloseResult : Type 0 where
  pub active_seconds : ℕ
  pub idle_seconds : ℕ
  pub avg_activity_pct : ℕ

-- `constraint_violation` is any error of the database that the code passes up as it is.
pub data Error : Type 0 where
  not_found forbidden constraint_violation : Error
