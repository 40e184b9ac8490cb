-- ===== src/Proposal/Once.antt =====
-- `SubmitProposal` of services/proposal/internal/service/service.go: one proposal of a freelancer for
-- a project.
use aizorix_freelancer.Base.{
  ℕ, String, false, some, List, [], ◌∷◌, ◌++◌, ◌≡◌, refl, arith, inl, inr, ap, sym, ◌∙◌,
  Option-cases, Bool-cases, eq_refl, if◌then◌else◌, ◌&&◌,
}
use mathlib.Core.Path.{subst}
use aizorix_freelancer.Base.Int.{pos, leb_ℤ}
use aizorix_freelancer.Base.Table.{find, find-append, find-append_some, find-update_either}
use aizorix_freelancer.Base.Tx.{ok, err, transact, commit_or_rollback}
use aizorix_freelancer.Proposal.Tables.{
  Proposal, SubmitInput, Db, Error, duplicate_proposal, constraint_violation,
}
use aizorix_freelancer.Proposal.Store.{
  fits_int, fits_null_int, has_int_columns, has_id, has_pair, insert_proposal, set_status,
}
use aizorix_freelancer.Proposal.Service.{proposal_row, submit_proposal}
use aizorix_freelancer.Proposal.Changes.{Change, untouched, added, moved, submit_proposal-eq-ok}
use aizorix_freelancer.Proposal.Requests.{Request, serve, serve-keeps}

-- A project has a proposal of a freelancer, whatever its status.
abbrev HasPair : String → String → Db → Type 0
HasPair project freelancer db =
    (p : Proposal) × (find (has_pair project freelancer) db.proposals ≡ some p)

Change-HasPair :
    (project freelancer : String) (db db' : Db)
    → Change db db'
    → HasPair project freelancer db
    → HasPair project freelancer db'
Change-HasPair project freelancer db db' (untouched a) (p, s) =
    (p, ap (find (has_pair project freelancer)) a ∙ s)
Change-HasPair project freelancer db db' (added new b a) (p, s) = (
  p,
  ap (find (has_pair project freelancer)) a
      ∙ find-append_some (has_pair project freelancer) new p db.proposals s,
)
Change-HasPair project freelancer db db' (moved test status a) (p, s) =
    elim (find-update_either (has_pair project freelancer) test (set_status status) p db.proposals
      (λ _. refl) s) [
        | inl h ↦ (p, ap (find (has_pair project freelancer)) a ∙ h)
        | inr h ↦ (set_status status p, ap (find (has_pair project freelancer)) a ∙ h)
      ]

submitted-HasPair :
    (new_id : String) (x : SubmitInput) (db db' : Db)
    → db'.proposals ≡ db.proposals ++ proposal_row new_id x ∷ []
    → HasPair x.project_id x.freelancer_id db'
submitted-HasPair new_id x db db' same =
    let test = has_pair x.project_id x.freelancer_id in
    elim (Option-cases (find test db.proposals)) [
      | inr (p, s) ↦
          (p, ap (find test) same ∙ find-append_some test (proposal_row new_id x) p db.proposals s)
      | inl n ↦ (
        proposal_row new_id x,
        ap (find test) same
            ∙ (find-append test (proposal_row new_id x) db.proposals n
                ∙ rw (eq_refl x.project_id, eq_refl x.freelancer_id) refl),
      )
    ]

-- Numbers that do not fit in an INT column are refused before the uniqueness is tested.
abbrev pub refusal : SubmitInput → Error
refusal x =
    if fits_null_int x.estimated_duration_days && fits_int x.connects_spent
    then duplicate_proposal
    else constraint_violation

submit_refused :
    (draw_milestone draw_answer : ℕ → String) (new_id : String) (x : SubmitInput) (db : Db)
    → leb_ℤ x.bid_amount_cents (pos 0) ≡ false
    → HasPair x.project_id x.freelancer_id db
    → transact (submit_proposal draw_milestone draw_answer new_id x) db ≡ (err (refusal x), db)
unfolding submit_proposal insert_proposal
submit_refused draw_milestone draw_answer new_id x db b (p, s) =
    let refused : submit_proposal draw_milestone draw_answer new_id x db ≡ err (refusal x) =
      elim (Bool-cases (has_int_columns (proposal_row new_id x))) [
        | inr c ↦ ground arith
        | inl c ↦ elim (Option-cases (find (has_id new_id) db.proposals)) [
          | inr (q, t) ↦ ground arith
          | inl n ↦ ground arith
        ]
      ] in
    ap (λ q. commit_or_rollback q db) refused

-- After a freelancer has submitted a proposal for a project, and whatever requests were served
-- since, a withdrawal of the proposal included, each submission of the freelancer for the project
-- with a positive bid is refused and changes nothing: as a duplicate, if its days and its connects
-- fit in an INT column, else by the column.
pub submit_proposal_once :
    (draw_milestone draw_answer draw_milestone' draw_answer' : ℕ → String) (new_id new_id' : String)
    (x x' : SubmitInput) (db db' : Db) (r : Proposal) (rs : List Request)
    → submit_proposal draw_milestone draw_answer new_id x db ≡ ok (r, db')
    → x'.project_id ≡ x.project_id
    → x'.freelancer_id ≡ x.freelancer_id
    → leb_ℤ x'.bid_amount_cents (pos 0) ≡ false
    → transact (submit_proposal draw_milestone' draw_answer' new_id' x') (serve rs db')
      ≡ (err (refusal x'), serve rs db')
submit_proposal_once draw_milestone draw_answer draw_milestone' draw_answer' new_id new_id' x x' db
      db' r rs h a b c =
    let (_, same) = submit_proposal-eq-ok draw_milestone draw_answer new_id x db db' r h in
    let there : HasPair x.project_id x.freelancer_id (serve rs db') =
      serve-keeps (HasPair x.project_id x.freelancer_id)
        (Change-HasPair x.project_id x.freelancer_id) rs db'
        (submitted-HasPair new_id x db db' same) in
    submit_refused draw_milestone' draw_answer' new_id' x' (serve rs db') c (
      subst (λ q. HasPair q x'.freelancer_id (serve rs db')) (sym a)
        (subst (λ q. HasPair x.project_id q (serve rs db')) (sym b) there))
