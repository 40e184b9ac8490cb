-- ===== src/Proposal/Store.antt =====
-- The queries of services/proposal/internal/store/store.go, one transaction step each. Ids that the
-- database draws are arguments.
use aizorix_freelancer.Base.{
  String, Bool, true, Option, none, some, List, [], ◌∷◌, ◌++◌, ◌&&◌, not, ◌==◌, if◌then◌else◌,
  is_some,
}
use aizorix_freelancer.Base.Int.{ℤ, pos, negsuc, leb_ℤ}
use aizorix_freelancer.Base.Outbox.{Event}
use aizorix_freelancer.Base.Table.{find, update, rows_by}
use aizorix_freelancer.Base.Tx.{Tx, pure, get_db, modify, fail_if, or_fail, ◌>>=◌, ◌>>◌}
use aizorix_freelancer.Proposal.Tables.{
  Proposal, ProposalStatus, withdrawn, shortlisted, Milestone, MilestoneInput, Answer, AnswerInput,
  Project, Db, Error, duplicate_proposal, not_found, constraint_violation, is_submitted,
  is_withdrawable,
}

abbrev pub has_id : String → Proposal → Bool
has_id id p = p.id == id

-- `UNIQUE (project_id, freelancer_id)`
abbrev pub has_pair : String → String → Proposal → Bool
has_pair project freelancer p = p.project_id == project && p.freelancer_id == freelancer

abbrev pub has_project_id : String → Project → Bool
has_project_id id p = p.id == id

-- A number that an INT column takes.
abbrev pub fits_int : ℤ → Bool
fits_int a = leb_ℤ (negsuc 2147483647) a && leb_ℤ a (pos 2147483647)

abbrev pub fits_null_int : Option ℤ → Bool
fits_null_int none = true
fits_null_int (some a) = fits_int a

abbrev pub has_int_columns : Proposal → Bool
has_int_columns p = fits_null_int p.estimated_duration_days && fits_int p.connects_spent

-- Each unique violation is taken for a second proposal.
unfoldable pub insert_proposal : Proposal → Tx Db Error (Unit {0})
insert_proposal p = do
  db ← get_db
  fail_if (not (has_int_columns p)) constraint_violation
  fail_if (is_some (find (has_id p.id) db.proposals)) duplicate_proposal
  fail_if (is_some (find (has_pair p.project_id p.freelancer_id) db.proposals)) duplicate_proposal
  fail_if (not (is_some (find (has_project_id p.project_id) db.projects))) constraint_violation
  modify (λ d. record d { proposals = d.proposals ++ p ∷ [] })

abbrev pub has_milestone_id : String → Milestone → Bool
has_milestone_id id m = m.id == id

-- `UNIQUE (proposal_id, seq)`
abbrev pub has_seq : String → ℤ → Milestone → Bool
has_seq proposal_id seq m = m.proposal_id == proposal_id && (leb_ℤ m.seq seq && leb_ℤ seq m.seq)

abbrev pub new_milestone : String → String → MilestoneInput → Milestone
new_milestone new_id proposal_id m = record {
  id = new_id;
  proposal_id = proposal_id;
  seq = m.seq;
  title = m.title;
  amount_cents = m.amount_cents;
  due_days = m.due_days;
}

unfoldable pub insert_milestone : String → String → MilestoneInput → Tx Db Error (Unit {0})
insert_milestone new_id proposal_id m = do
  db ← get_db
  fail_if (not (fits_int m.seq && fits_null_int m.due_days)) constraint_violation
  fail_if (is_some (find (has_milestone_id new_id) db.milestones)) constraint_violation
  fail_if (is_some (find (has_seq proposal_id m.seq) db.milestones)) constraint_violation
  modify (λ d. record d { milestones = d.milestones ++ new_milestone new_id proposal_id m ∷ [] })

abbrev pub has_answer_id : String → Answer → Bool
has_answer_id id a = a.id == id

abbrev pub new_answer : String → String → AnswerInput → Answer
new_answer new_id proposal_id a = record {
  id = new_id;
  proposal_id = proposal_id;
  question = a.question;
  answer = a.answer;
}

unfoldable pub insert_answer : String → String → AnswerInput → Tx Db Error (Unit {0})
insert_answer new_id proposal_id a = do
  db ← get_db
  fail_if (is_some (find (has_answer_id new_id) db.answers)) constraint_violation
  modify (λ d. record d { answers = d.answers ++ new_answer new_id proposal_id a ∷ [] })

-- `UPDATE ... WHERE test`: whether a row was changed.
unfoldable pub update_row : (Proposal → Bool) → (Proposal → Proposal) → Tx Db Error Bool
update_row test f = do
  db ← get_db
  modify (λ d. record d { proposals = update test f d.proposals })
  pure (is_some (find test db.proposals))

abbrev pub set_status : ProposalStatus → Proposal → Proposal
set_status status p = record p { status = status }

abbrev pub may_withdraw : String → String → Proposal → Bool
may_withdraw id freelancer p =
    p.id == id && (p.freelancer_id == freelancer && is_withdrawable p.status)

abbrev pub withdraw_row : String → String → Tx Db Error Bool
withdraw_row id freelancer = update_row (may_withdraw id freelancer) (set_status withdrawn)

abbrev pub may_shortlist : String → Proposal → Bool
may_shortlist id p = p.id == id && is_submitted p.status

abbrev pub shortlist_row : String → Tx Db Error Bool
shortlist_row id = update_row (may_shortlist id) (set_status shortlisted)

unfoldable pub project_client_of : String → Tx Db Error String
project_client_of id = do
  db ← get_db
  pr ← or_fail (find (has_project_id id) db.projects) not_found
  pure pr.client_id

unfoldable pub get_proposal : String → Tx Db Error Proposal
get_proposal id = do db ← get_db; or_fail (find (has_id id) db.proposals) not_found

-- `proposals JOIN projects`
unfoldable pub project_client_of_proposal : String → Tx Db Error String
unfolding get_proposal project_client_of
project_client_of_proposal id = do p ← get_proposal id; project_client_of p.project_id

abbrev pub insert_by_seq : Milestone → List Milestone → List Milestone
insert_by_seq x [] = x ∷ []
insert_by_seq x (y ∷ ys) =
    let rest = insert_by_seq x ys in if leb_ℤ x.seq y.seq then x ∷ (y ∷ ys) else y ∷ rest

-- `ORDER BY seq`
abbrev pub by_seq : List Milestone → List Milestone
by_seq [] = []
by_seq (x ∷ xs) = insert_by_seq x (by_seq xs)

abbrev pub of_proposal : String → Milestone → Bool
of_proposal id m = m.proposal_id == id

unfoldable pub list_milestones : String → Tx Db Error (List Milestone)
list_milestones id = do db ← get_db; pure (by_seq (rows_by (of_proposal id) db.milestones))

unfoldable pub enqueue : Event → Tx Db Error (Unit {0})
enqueue ev = modify (λ d. record d { outbox = d.outbox ++ ev ∷ [] })
