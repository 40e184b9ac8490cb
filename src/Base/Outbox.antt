-- ===== src/Base/Outbox.antt =====
-- The transactional outbox (services/pkg/outbox/outbox.go): the event that a state change enqueues
-- in its own transaction. The JSON payload is its list of names and values.
use aizorix_freelancer.Base.Int.{ℤ}
use Prim.Native.Nat.{ℕ}
use Prim.Native.String.{String}
use mathlib.Core.List.{List}

pub data Value : Type 0 where
  text : String → Value
  cents : ℤ → Value
  count : ℕ → Value
  texts : List String → Value
  null : Value

pub record Event : Type 0 where
  pub aggregate_type : String
  pub aggregate_id : String
  pub event_type : String
  pub topic : String
  pub partition_key : String
  pub payload : List (String × Value)
