-- ===== src/Proposal/Requests.antt =====
-- The proposal service as a state machine: each request runs one method of
-- services/proposal/internal/service/service.go on the tables.
use aizorix_freelancer.Base.{ℕ, String, false, List, [], ◌∷◌, ◌≡◌, refl, sym}
use mathlib.Core.Path.{subst}
use aizorix_freelancer.Base.Int.{pos, leb_ℤ}
use aizorix_freelancer.Base.Rows.{All, All-append, All-update}
use aizorix_freelancer.Base.Tx.{transact, transact-keeps}
use aizorix_freelancer.Proposal.Tables.{Proposal, SubmitInput, Db}
use aizorix_freelancer.Proposal.Store.{set_status}
use aizorix_freelancer.Proposal.Service.{
  proposal_row, submit_proposal, withdraw_proposal, shortlist_proposal,
}
use aizorix_freelancer.Proposal.Changes.{
  Change, untouched, added, moved, submit_proposal-eq-ok, withdraw_proposal-Change,
  shortlist_proposal-Change,
}

pub data Request : Type 0 where
  submit : (ℕ → String) → (ℕ → String) → String → SubmitInput → Request
  withdraw : String → String → Request
  shortlist : String → String → Request

-- The tables after a request, whether it succeeds or not.
unfoldable pub handle : Request → Db → Db
handle (submit draw_milestone draw_answer new_id x) db =
    (transact (submit_proposal draw_milestone draw_answer new_id x) db).1
handle (withdraw id freelancer) db = (transact (withdraw_proposal id freelancer) db).1
handle (shortlist id actor) db = (transact (shortlist_proposal id actor) db).1

unfoldable pub serve : List Request → Db → Db
unfolding handle
serve [] db = db
serve (r ∷ rs) db = serve rs (handle r db)

handle-Change : (r : Request) (db : Db) → Change db (handle r db)
unfolding handle
handle-Change (submit draw_milestone draw_answer new_id x) db =
    transact-keeps (Change db) (submit_proposal draw_milestone draw_answer new_id x) db
      (untouched refl)
      (λ r db' h.
        let (b, same) = submit_proposal-eq-ok draw_milestone draw_answer new_id x db db' r h in
        added (proposal_row new_id x) b same)
handle-Change (withdraw id freelancer) db =
    transact-keeps (Change db) (withdraw_proposal id freelancer) db (untouched refl)
      (λ r db' h. withdraw_proposal-Change id freelancer db db' r h)
handle-Change (shortlist id actor) db =
    transact-keeps (Change db) (shortlist_proposal id actor) db (untouched refl)
      (λ r db' h. shortlist_proposal-Change id actor db db' r h)

pub serve-keeps :
    (P : Db → Type 0)
    → ((db db' : Db) → Change db db' → P db → P db')
    → (rs : List Request) (db : Db) → P db
    → P (serve rs db)
unfolding serve
serve-keeps P keep [] db p = p
serve-keeps P keep (r ∷ rs) db p =
    serve-keeps P keep rs (handle r db) (keep db (handle r db) (handle-Change r db) p)

abbrev pub HasPositiveBid : Proposal → Type 0
HasPositiveBid p = leb_ℤ p.bid_amount_cents (pos 0) ≡ false

abbrev pub AllPositive : Db → Type 0
AllPositive db = All HasPositiveBid db.proposals

Change-AllPositive : (db db' : Db) → Change db db' → AllPositive db → AllPositive db'
Change-AllPositive db db' (untouched a) k = subst (All HasPositiveBid) (sym a) k
Change-AllPositive db db' (added p b a) k =
    subst (All HasPositiveBid) (sym a) (All-append HasPositiveBid p db.proposals k b)
Change-AllPositive db db' (moved test status a) k =
    subst (All HasPositiveBid) (sym a)
      (All-update HasPositiveBid test (set_status status) db.proposals (λ _ m. m) k)

pub serve-AllPositive : (rs : List Request) (db : Db) → AllPositive db → AllPositive (serve rs db)
serve-AllPositive rs db k = serve-keeps AllPositive Change-AllPositive rs db k
