-- ===== src/Escrow/Tests.antt =====
-- Runs of the escrow service, and its theorems at them.
use aizorix_freelancer.Base.{some, List, [], ◌∷◌, ◌≡◌, refl}
use aizorix_freelancer.Base.Int.{pos, ◌+ℤ◌, ◌-ℤ◌, int_laws}
use aizorix_freelancer.Base.Table.{find}
use aizorix_freelancer.Base.Tx.{ok, err, transact}
use aizorix_freelancer.Escrow.Tables.{Escrow, EscrowStatus, Db, not_found}
use aizorix_freelancer.Escrow.Store.{has_id}
use aizorix_freelancer.Escrow.Service.{
  fund_escrow, release_milestone, release_hours, refund_escrow, allocate_to_milestone,
}
use aizorix_freelancer.Escrow.Valid.Covered.{IsValid}
use aizorix_freelancer.Escrow.Ledger.{IsReconciled}
use aizorix_freelancer.Escrow.Requests.{
  Request, fund, allocate, release_week_hours, refund_held, serve, empty, empty-IsValid,
  serve-IsValid, serve-IsReconciled,
}
use aizorix_freelancer.Escrow.Promises.ReleaseOnce.{release_milestone_once}
use aizorix_freelancer.Escrow.Promises.FundOnce.{fund_escrow_once}
use aizorix_freelancer.Escrow.Promises.WeekOnce.{release_hours_once}
use aizorix_freelancer.Escrow.Promises.Guards.{release_milestone_succeeds, refund_leaves_payable}

abbrev opening : List Request
opening =
    fund "g1" "escrow" "contract" (pos 10000) "" "key"
    ∷ allocate "row" "escrow" "design" (pos 4000)
    ∷ []

abbrev later : List Request
later =
    fund "g3" "other" "contract" (pos 500) "EUR" "key"
    ∷ refund_held "g4" "escrow" (pos 7000) "too much"
    ∷ release_week_hours "g5" "row2" "escrow" "2026-W01" (pos 2500)
    ∷ []

account_after_opening :
    find (has_id "escrow") (serve opening empty).accounts
    ≡ some (record {
      id = "escrow";
      contract_id = "contract";
      currency = "USD";
      held_cents = pos 10000;
      released_cents = pos 0;
      refunded_cents = pos 0;
      status = EscrowStatus.held;
    })
unfolding serve ◌+ℤ◌ ◌-ℤ◌ allocate_to_milestone
account_after_opening = refl

serve-IsValid_example : IsValid (serve (opening) empty)
serve-IsValid_example = serve-IsValid opening

release_milestone_once_example :
    release_milestone "g9" "escrow" "design"
      (serve later (transact (release_milestone "g2" "escrow" "design") (serve opening empty)).1)
    ≡ err not_found
unfolding serve release_milestone ◌+ℤ◌ ◌-ℤ◌ allocate_to_milestone
release_milestone_once_example =
    release_milestone_once "g2" "g9" "escrow" "design" (serve opening empty) _ _ later
      (serve-IsValid opening) refl

serve-IsReconciled_example : IsReconciled (serve later (serve opening empty))
unfolding serve
serve-IsReconciled_example = serve-IsReconciled (
    fund "g1" "escrow" "contract" (pos 10000) "" "key"
    ∷ allocate "row" "escrow" "design" (pos 4000)
    ∷ later)

fund_escrow_once_example :
    let db = (fund_escrow "g1" "escrow" "contract" (pos 10000) "" "key" empty).1 in
    (fund_escrow "g9" "other" "contract" (pos 77) "EUR" "key" (serve later db)).1 ≡ serve later db
unfolding fund_escrow ◌+ℤ◌ ◌-ℤ◌
fund_escrow_once_example =
    fund_escrow_once "g1" "g9" "escrow" "other" "contract" (pos 10000) (pos 77) "" "EUR" "key" empty
      _ _ later empty-IsValid refl refl

release_hours_once_example :
    let db =
      (transact
        (release_hours "g2" "row2" "escrow" "2026-W01" (pos 2500))
        (serve opening empty)).1 in
    (transact (release_hours "g8" "row9" "escrow" "2026-W01" (pos 60)) (serve later db)).1
    ≡ serve later db
unfolding serve release_hours ◌+ℤ◌ ◌-ℤ◌ allocate_to_milestone
release_hours_once_example =
    release_hours_once "g2" "g8" "row2" "row9" "escrow" "2026-W01" (pos 2500) (pos 60)
      (serve opening empty) _ _ later (serve-IsValid opening) refl

release_milestone_succeeds_example :
    (e' : Escrow) × (db' : Db) × (release_milestone "g2" "escrow" "design" (serve opening empty)
      ≡ ok (e', db'))
    × (e'.held_cents ≡ pos 10000 -ℤ pos 4000)
    × (e'.released_cents ≡ pos 0 +ℤ pos 4000)
    × (e'.refunded_cents ≡ pos 0)
unfolding serve ◌+ℤ◌ ◌-ℤ◌ allocate_to_milestone
release_milestone_succeeds_example =
    release_milestone_succeeds "g2" "escrow" "design" (serve opening empty) _ _
      (serve-IsValid opening) refl refl refl (omega int_laws)

-- 4000 of the 10000 cents are reserved, and the other 6000 are refunded.
refund_leaves_payable_example :
    (e'' : Escrow) × (db'' : Db) × (release_milestone "g3" "escrow" "design"
        (transact (refund_escrow "g2" "escrow" (pos 6000) "") (serve opening empty)).1
      ≡ ok (e'', db''))
    × (e''.held_cents ≡ pos 4000 -ℤ pos 4000)
    × (e''.released_cents ≡ pos 0 +ℤ pos 4000)
    × (e''.refunded_cents ≡ pos 6000)
unfolding serve ◌+ℤ◌ ◌-ℤ◌ allocate_to_milestone refund_escrow
refund_leaves_payable_example =
    refund_leaves_payable "g2" "g3" "escrow" "design" (pos 6000) "" (serve opening empty) _ _ _
      (serve-IsValid opening) refl refl (omega int_laws)
