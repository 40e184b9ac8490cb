-- ===== src/Payment/Tables.antt =====
-- The rows of services/payment/internal/store/store.go, and the inputs and errors of the service.
-- Creation times are the order of the rows; the failure reason, which the code never writes, is
-- left out.
use aizorix_freelancer.Base.{ℕ, String, Bool, true, false, Option, List}
use aizorix_freelancer.Base.Int.{ℤ}
use aizorix_freelancer.Base.Outbox.{Event}

pub data PaymentStatus : Type 0 where
  processing requires_action succeeded failed refunded disputed : PaymentStatus

pub record Payment : Type 0 where
  pub id : String
  pub contract_id : Option String
  pub payer_id : String
  pub amount_cents : ℤ
  pub currency : String
  pub status : PaymentStatus
  pub stripe_payment_intent_id : Option String
  pub stripe_charge_id : Option String
  pub idempotency_key : Option String

pub data AccountKind : Type 0 where
  stripe_clearing client_funding escrow : AccountKind

-- The type of all legs is 'deposit', and they have no account and no memo.
pub record Leg : Type 0 where
  pub account_kind : AccountKind
  pub contract_id : Option String
  pub amount_cents : ℤ
  pub currency : String
  pub payment_id : Option String

-- A row of `transactions`.
pub record Posting : Type 0 where
  pub txn_group : String
  pub leg : Leg

-- A row of `stripe_events`.
pub record EventRow : Type 0 where
  pub id : String
  pub event_type : String
  pub payload : String
  pub processed_at : Option ℕ

pub record Db : Type 0 where
  pub payments : List Payment
  pub stripe_events : List EventRow
  pub transactions : List Posting
  pub outbox : List Event

-- What a webhook's body is parsed to.
pub record StripeEvent : Type 0 where
  pub id : String
  pub event_type : String
  pub object_id : String

pub record IntentResult : Type 0 where
  pub payment_id : String
  pub stripe_payment_intent_id : String
  pub client_secret : String
  pub status : PaymentStatus

-- `constraint_violation` is any error of the database that the code passes up as it is.
pub data Error : Type 0 where
  not_found duplicate_key bad_amount stripe_failed unbalanced : Error
  missing_event_id constraint_violation : Error

abbrev pub is_processing : PaymentStatus → Bool
is_processing PaymentStatus.processing = true
is_processing _ = false
