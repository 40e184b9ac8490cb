-- ===== src/Escrow/Promises/Guards.antt =====
-- When `ReleaseMilestone` of services/escrow/internal/service/service.go succeeds, also after a
-- `RefundEscrow`.
use aizorix_freelancer.Base.{
  String, sym, ap, ◌∙◌, true, Option, none, some, List, [], ◌∷◌, ◌≡◌, refl, arith, inl, inr,
  Bool-cases,
}
use aizorix_freelancer.Base.Int.{ℤ, pos, ◌+ℤ◌, ◌-ℤ◌, ◌≤ℤ◌, ◌<ℤ◌, le→ltb_ℤ, +ℤ_parts, -ℤ_parts}
use aizorix_freelancer.Base.Table.{find, update, find-update_self}
use aizorix_freelancer.Base.Tx.{ok}
use aizorix_freelancer.Escrow.Tables.{
  Escrow, EscrowStatus, TxnType, AccountKind, Allocation, Db, has_valid_balances, max_bigint,
}
use aizorix_freelancer.Escrow.Store.{
  has_id, held_to_released, held_to_refunded, is_reserved_milestone,
}
use aizorix_freelancer.Escrow.Service.{
  release_milestone, pay_out, payment_legs, released_event, status_after_release,
  status_after_refund, refund_escrow,
}
use aizorix_freelancer.Escrow.Effects.{moved, reserved_sum}
use aizorix_freelancer.Escrow.Inversion.{write_legs-payment_legs, refund_escrow-eq-ok}
use aizorix_freelancer.Escrow.Refine.Release.{with_marked, refund_escrow-Effects}
use aizorix_freelancer.Escrow.Rows.{UniqueIds, reserved_row_of_milestone}
use aizorix_freelancer.Escrow.Valid.Covered.{IsValid, AllPositive, covered_found}
use aizorix_freelancer.Escrow.Valid.Invariant.{reserved-le-sum, Effects-IsValid}

le_transℤ : (a b c : ℤ) → a ≤ℤ b → b ≤ℤ c → a ≤ℤ c
le_transℤ a b c h k = omega arith

balances_after_release :
    (e : Escrow) (amount : ℤ) (status : EscrowStatus)
    → has_valid_balances e ≡ true
    → pos 0 <ℤ amount
    → amount ≤ℤ e.held_cents
    → e.released_cents +ℤ amount ≤ℤ max_bigint
    → has_valid_balances (held_to_released amount status e) ≡ true
balances_after_release e amount status b p enough fits =
    ground (arith, -ℤ_parts e.held_cents amount, +ℤ_parts e.released_cents amount)

positive_of_row :
    (id m : String) (a : Allocation) (xs : List Allocation)
    → AllPositive xs
    → find (is_reserved_milestone id m) xs ≡ some a
    → pos 0 <ℤ a.amount_cents
positive_of_row id m a [] h s = ground arith
positive_of_row id m a (x ∷ xs) h s = elim (Bool-cases (is_reserved_milestone id m x)) [
  | inl t ↦ let same : x ≡ a = ground arith in rw (← same) h.0
  | inr f ↦ positive_of_row id m a xs h.1 (ground arith)
]

pay_out_succeeds :
    (group id : String) (m w : Option String) (held amount : ℤ) (db : Db) (e : Escrow)
    → find (has_id id) db.accounts ≡ some e
    → let f = held_to_released amount (status_after_release (held -ℤ amount)) in
      has_valid_balances (f e) ≡ true
      → pay_out group id m w held amount db
        ≡ ok (
          f e,
          moved id f group
              (payment_legs TxnType.escrow_release AccountKind.freelancer_balance (f e) amount none)
              (released_event (f e) m w amount)
              db,
        )
unfolding pay_out
pay_out_succeeds group id m w held amount db e s v =
    let f = held_to_released amount (status_after_release (held -ℤ amount)) in
    let w' =
      write_legs-payment_legs group TxnType.escrow_release AccountKind.freelancer_balance (f e)
        amount none (record db { accounts = update (has_id id) f db.accounts }) in
    ground (arith, w')

release_milestone_forward :
    (group id m : String) (db : Db) (e : Escrow) (a : Allocation) {e' : Escrow} {db' : Db}
    → UniqueIds db.allocations
    → find (has_id id) db.accounts ≡ some e
    → find (is_reserved_milestone id m) db.allocations ≡ some a
    → a.amount_cents ≤ℤ e.held_cents
    → reserved_sum id db ≤ℤ e.held_cents
    → pay_out group id (some m) none e.held_cents a.amount_cents (with_marked a.id db)
      ≡ ok (e', db')
    → release_milestone group id m db ≡ ok (e', db')
unfolding release_milestone
release_milestone_forward group id m db e a u s found enough covered last =
    let row = reserved_row_of_milestone id m a db.allocations u found in
    let t₁ = le→ltb_ℤ e.held_cents a.amount_cents enough in
    let t₂ = le→ltb_ℤ e.held_cents (reserved_sum id db) covered in ground arith

-- A reserved allocation can be paid: on valid tables, if the milestone has a reserved allocation
-- in an account whose columns are in range, and the released cents do not pass the greatest BIGINT,
-- its release succeeds and moves the allocation's cents from held to released.
pub release_milestone_succeeds :
    (group id m : String) (db : Db) (e : Escrow) (a : Allocation)
    → IsValid db
    → find (has_id id) db.accounts ≡ some e
    → find (is_reserved_milestone id m) db.allocations ≡ some a
    → has_valid_balances e ≡ true
    → e.released_cents +ℤ a.amount_cents ≤ℤ max_bigint
    → (e' : Escrow) × (db' : Db) × (release_milestone group id m db ≡ ok (e', db'))
      × (e'.held_cents ≡ e.held_cents -ℤ a.amount_cents)
      × (e'.released_cents ≡ e.released_cents +ℤ a.amount_cents)
      × (e'.refunded_cents ≡ e.refunded_cents)
release_milestone_succeeds group id m db e a v s found b fits =
    let enough : a.amount_cents ≤ℤ e.held_cents =
      le_transℤ a.amount_cents (reserved_sum id db) e.held_cents
        (reserved-le-sum id m a db.allocations v.positive found)
        (covered_found db id e s v.covered) in
    let f =
      held_to_released a.amount_cents (status_after_release (e.held_cents -ℤ a.amount_cents)) in
    let d : Db = with_marked a.id db in
    let last = pay_out_succeeds group id (some m) none e.held_cents a.amount_cents d e s (
      balances_after_release e a.amount_cents
        (status_after_release (e.held_cents -ℤ a.amount_cents)) b
        (positive_of_row id m a db.allocations v.positive found) enough fits) in
    (
      f e,
      _,
      release_milestone_forward group id m db e a v.unique_ids s found enough
          (covered_found db id e s v.covered) last,
      refl,
      refl,
      refl,
    )

-- A refund leaves what is reserved: on valid tables, when a refund has succeeded on an account where
-- a milestone has a reserved allocation, and the released cents with it do not pass the greatest
-- BIGINT, the next release of the milestone succeeds and moves the allocation's cents from what the
-- refund has left in held to released.
pub refund_leaves_payable :
    (group group' id m : String) (amount : ℤ) (reason : String) (db db' : Db) (e' : Escrow)
    (a : Allocation)
    → IsValid db
    → find (is_reserved_milestone id m) db.allocations ≡ some a
    → refund_escrow group id amount reason db ≡ ok (e', db')
    → e'.released_cents +ℤ a.amount_cents ≤ℤ max_bigint
    → (e'' : Escrow) × (db'' : Db) × (release_milestone group' id m db' ≡ ok (e'', db''))
      × (e''.held_cents ≡ e'.held_cents -ℤ a.amount_cents)
      × (e''.released_cents ≡ e'.released_cents +ℤ a.amount_cents)
      × (e''.refunded_cents ≡ e'.refunded_cents)
refund_leaves_payable group group' id m amount reason db db' e' a v found run fits =
    let (e, s, p, covered, (valid, same, after)) =
      refund_escrow-eq-ok group id amount reason db db' e' run in
    let f = held_to_refunded amount (status_after_refund (e.held_cents -ℤ amount)) in
    let allocations : find (is_reserved_milestone id m) db'.allocations ≡ some a =
      ap (λ d. find (is_reserved_milestone id m) d.allocations) after ∙ found in
    let in_range : has_valid_balances e' ≡ true = ap has_valid_balances same ∙ valid in
    let row : find (has_id id) db'.accounts ≡ some e' =
      ap (λ d. find (has_id id) d.accounts) after
      ∙ (find-update_self (has_id id) f e db.accounts (λ _. refl) s ∙ ap some (sym same)) in
    release_milestone_succeeds group' id m db' e' a
      (Effects-IsValid (refund_escrow-Effects group id amount reason db db' e' run) v) row
      allocations in_range fits
