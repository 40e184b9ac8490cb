-- ===== src/Contract/Store.antt =====
-- The queries of services/contract/internal/store/store.go, one transaction step each. Ids that the
-- database draws and the time of `now()` are arguments.
use aizorix_freelancer.Base.{
  ℕ, String, Bool, true, false, Option, none, some, List, [], ◌∷◌, ◌++◌, ◌&&◌, ◌||◌, not, ◌==◌,
  if◌then◌else◌, is_some,
}
use mathlib.Core.List.{reverse}
use aizorix_freelancer.Base.Int.{ℤ, pos, leb_ℤ, eqb_ℤ}
use aizorix_freelancer.Base.Outbox.{Event}
use aizorix_freelancer.Base.Table.{find, update}
use aizorix_freelancer.Base.Tx.{Tx, pure, get_db, modify, fail_if, or_fail, ◌>>=◌, ◌>>◌}
use aizorix_freelancer.Contract.Tables.{
  Contract, ContractStatus, Milestone, MilestoneStatus, MilestoneInput, ContractEvent, Dispute,
  Deliverable, Db, Error, not_found, constraint_violation, same_status, is_pending, is_funded,
  is_submitted,
}

abbrev pub has_id : String → Contract → Bool
has_id id c = c.id == id

abbrev pub has_milestone_id : String → Milestone → Bool
has_milestone_id id m = m.id == id

-- A row of the same `UNIQUE (contract_id, seq)`.
abbrev pub has_seq : String → ℤ → Milestone → Bool
has_seq contract_id seq m = m.contract_id == contract_id && eqb_ℤ m.seq seq

-- The row goes in with status 'pending_funding', if the table's constraints let it.
unfoldable pub insert_contract : Contract → Tx Db Error (Unit {0})
insert_contract c = do
  db ← get_db
  fail_if (not (c.budget_type == "fixed" || c.budget_type == "hourly")) constraint_violation
  fail_if (c.client_id == c.freelancer_id) constraint_violation
  fail_if (c.budget_type == "hourly" && not (is_some c.hourly_rate_cents)) constraint_violation
  fail_if (is_some (find (has_id c.id) db.contracts)) constraint_violation
  modify (λ d. record d { contracts = d.contracts ++ c ∷ [] })

unfoldable pub insert_hourly_contract : String → Tx Db Error (Unit {0})
insert_hourly_contract id = do
  db ← get_db
  fail_if (is_some (find (λ k. k == id) db.hourly_contracts)) constraint_violation
  modify (λ d. record d { hourly_contracts = d.hourly_contracts ++ id ∷ [] })

abbrev pub new_milestone : String → String → MilestoneInput → Milestone
new_milestone new_id contract_id m = record {
  id = new_id;
  contract_id = contract_id;
  seq = m.seq;
  title = m.title;
  description = m.description;
  amount_cents = m.amount_cents;
  status = MilestoneStatus.pending;
  due_at = m.due_at;
  funded_at = none;
  submitted_at = none;
  approved_at = none;
}

unfoldable pub insert_milestone : String → String → MilestoneInput → Tx Db Error (Unit {0})
insert_milestone new_id contract_id m = do
  db ← get_db
  fail_if (leb_ℤ m.amount_cents (pos 0)) constraint_violation
  fail_if (is_some (find (has_milestone_id new_id) db.milestones)) constraint_violation
  fail_if (is_some (find (has_seq contract_id m.seq) db.milestones)) constraint_violation
  modify (λ d. record d { milestones = d.milestones ++ new_milestone new_id contract_id m ∷ [] })

unfoldable pub insert_contract_event : ContractEvent → Tx Db Error (Unit {0})
insert_contract_event ev = modify (λ d. record d { contract_events = d.contract_events ++ ev ∷ [] })

-- `UPDATE contracts SET status = $3 WHERE id = $1 AND status = $2`: whether a row was changed.
abbrev pub is_in : String → ContractStatus → Contract → Bool
is_in id from c = c.id == id && same_status c.status from

abbrev pub set_status : ContractStatus → Contract → Contract
set_status to c = record c { status = to }

unfoldable pub transition_contract : String → ContractStatus → ContractStatus → Tx Db Error Bool
transition_contract id from to = do
  db ← get_db
  modify (λ d. record d { contracts = update (is_in id from) (set_status to) d.contracts })
  pure (is_some (find (is_in id from) db.contracts))

abbrev pub set_started : ℕ → Contract → Contract
set_started now c = record c { started_at = some now }

unfoldable pub mark_contract_started : ℕ → String → Tx Db Error (Unit {0})
mark_contract_started now id =
    modify (λ d. record d { contracts = update (has_id id) (set_started now) d.contracts })

unfoldable pub milestone_info : String → Tx Db Error Milestone
milestone_info id = do db ← get_db; or_fail (find (has_milestone_id id) db.milestones) not_found

unfoldable pub update_milestone : String → (Milestone → Milestone) → Tx Db Error (Unit {0})
update_milestone id f =
    modify (λ d. record d { milestones = update (has_milestone_id id) f d.milestones })

abbrev pub set_funded : ℕ → Milestone → Milestone
set_funded now m = record m { status = MilestoneStatus.funded; funded_at = some now }

abbrev pub set_submitted : ℕ → Milestone → Milestone
set_submitted now m = record m { status = MilestoneStatus.submitted; submitted_at = some now }

abbrev pub set_approved : ℕ → Milestone → Milestone
set_approved now m = record m { status = MilestoneStatus.approved; approved_at = some now }

-- The three moves return the milestone as it was, and whether its status allowed the move.
unfoldable pub fund_row : ℕ → String → Tx Db Error (Milestone × Bool)
unfolding milestone_info update_milestone
fund_row now id = do
  m ← milestone_info id
  if is_pending m.status
      then (do update_milestone id (set_funded now); pure (m, true))
      else pure (m, false)

unfoldable pub submit_row : ℕ → String → Tx Db Error (Milestone × Bool)
unfolding milestone_info update_milestone
submit_row now id = do
  m ← milestone_info id
  if is_funded m.status
      then (do update_milestone id (set_submitted now); pure (m, true))
      else pure (m, false)

unfoldable pub approve_row : ℕ → String → Tx Db Error (Milestone × Bool)
unfolding milestone_info update_milestone
approve_row now id = do
  m ← milestone_info id
  if is_submitted m.status
      then (do update_milestone id (set_approved now); pure (m, true))
      else pure (m, false)

unfoldable pub freelancer_of_contract : String → Tx Db Error String
freelancer_of_contract id = do
  db ← get_db
  c ← or_fail (find (has_id id) db.contracts) not_found
  pure c.freelancer_id

unfoldable pub insert_deliverable : Deliverable → Tx Db Error (Unit {0})
insert_deliverable x = modify (λ d. record d { deliverables = d.deliverables ++ x ∷ [] })

abbrev pub has_dispute_id : String → Dispute → Bool
has_dispute_id id x = x.id == id

abbrev pub has_milestone : Option String → Db → Bool
has_milestone none db = true
has_milestone (some id) db = is_some (find (has_milestone_id id) db.milestones)

-- The foreign keys of a dispute but for its contract, which the service has read. `is_user` tells
-- which ids the table `users` has.
abbrev pub has_references : (String → Bool) → Dispute → Db → Bool
has_references is_user x db =
    has_milestone x.milestone_id db && (is_user x.raised_by && is_user x.against)

unfoldable pub insert_dispute : (String → Bool) → Dispute → Tx Db Error String
insert_dispute is_user x = do
  db ← get_db
  fail_if (is_some (find (has_dispute_id x.id) db.disputes)) constraint_violation
  fail_if (not (has_references is_user x db)) constraint_violation
  modify (λ d. record d { disputes = d.disputes ++ x ∷ [] })
  pure x.id

unfoldable pub current_status : String → Tx Db Error ContractStatus
current_status id = do
  db ← get_db
  c ← or_fail (find (has_id id) db.contracts) not_found
  pure c.status

unfoldable pub force_status : String → ContractStatus → Tx Db Error (Unit {0})
force_status id to =
    modify (λ d. record d { contracts = update (has_id id) (set_status to) d.contracts })

-- `GetContract` and `GetContractTx`.
unfoldable pub get_contract : String → Tx Db Error Contract
get_contract id = do db ← get_db; or_fail (find (has_id id) db.contracts) not_found

unfoldable pub enqueue : Event → Tx Db Error (Unit {0})
enqueue ev = modify (λ d. record d { outbox = d.outbox ++ ev ∷ [] })

-- The rows of a table that pass a test, in order.
abbrev pub rows {ℓ} : {A : Type ℓ} → (A → Bool) → List A → List A
rows test [] = []
rows test (x ∷ xs) = if test x then x ∷ rows test xs else rows test xs

-- `ORDER BY seq`, as an insertion sort.
unfoldable pub insert_by_seq : Milestone → List Milestone → List Milestone
insert_by_seq m [] = m ∷ []
insert_by_seq m (x ∷ xs) =
    let rest = insert_by_seq m xs in if leb_ℤ m.seq x.seq then m ∷ x ∷ xs else x ∷ rest

unfoldable pub by_seq : List Milestone → List Milestone
unfolding insert_by_seq
by_seq [] = []
by_seq (m ∷ ms) = insert_by_seq m (by_seq ms)

unfoldable pub list_milestones : String → Tx Db Error (List Milestone)
unfolding by_seq
list_milestones id = do db ← get_db; pure (by_seq (rows (λ m. m.contract_id == id) db.milestones))

unfoldable pub list_contract_events : String → Tx Db Error (List ContractEvent)
list_contract_events id = do
  db ← get_db
  pure (rows (λ ev. ev.contract_id == id) db.contract_events)

unfoldable pub list_for_user : String → String → Tx Db Error (List Contract)
list_for_user user role = do
  db ← get_db
  pure (
      reverse (
        rows (λ c. if role == "freelancer" then c.freelancer_id == user else c.client_id == user)
          db.contracts))
