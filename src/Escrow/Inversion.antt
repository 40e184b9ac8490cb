-- ===== src/Escrow/Inversion.antt =====
-- What the steps of the escrow service have done when they succeed.
use aizorix_freelancer.Base.{
  String, true, false, Option, none, some, ◌++◌, ◌≡◌, ◌==◌, arith, inl, inr, Option-cases,
  Bool-cases, if◌then◌else◌,
}
use aizorix_freelancer.Base.Int.{
  ℤ, pos, ◌+ℤ◌, ◌-ℤ◌, ◌≤ℤ◌, ◌<ℤ◌, leb_ℤ, ltb_ℤ, neg-add_self, int_laws,
}
use aizorix_freelancer.Base.Table.{find, update}
use aizorix_freelancer.Base.Tx.{ok}
use aizorix_freelancer.Escrow.Tables.{Escrow, TxnType, AccountKind, Db, has_valid_balances}
use aizorix_freelancer.Escrow.Store.{
  has_id, plus_held, held_to_released, held_to_refunded, update_escrow, postings, write_legs,
}
use aizorix_freelancer.Escrow.Service.{
  hold_legs, payment_legs, credit, Funding, credited, pay_out, funded_event, released_event,
  refunded_event, status_after_release, status_after_refund, refund_escrow,
}
use aizorix_freelancer.Escrow.Effects.{moved, reserved_sum}

-- Both kinds of legs sum to zero, so that `write_legs` writes them.
pub write_legs-hold_legs :
    (group contract_id : String) (e : Escrow) (amount : ℤ) (db : Db)
    → write_legs group (hold_legs e contract_id amount) db
      ≡ ok (
        tt,
        record db {
          transactions = db.transactions ++ postings group (hold_legs e contract_id amount);
        },
      )
unfolding write_legs
write_legs-hold_legs group contract_id e amount db = rw (neg-add_self amount)

pub write_legs-payment_legs :
    (group : String) (type : TxnType) (kind : AccountKind) (e : Escrow) (amount : ℤ)
    (memo : Option String) (db : Db)
    → write_legs group (payment_legs type kind e amount memo) db
      ≡ ok (
        tt,
        record db {
          transactions = db.transactions ++ postings group (payment_legs type kind e amount memo);
        },
      )
unfolding write_legs
write_legs-payment_legs group type kind e amount memo db = rw (neg-add_self amount)

pub update_escrow-eq-ok :
    (id : String) (f : Escrow → Escrow) (db db' : Db) (e' : Escrow)
    → update_escrow id f db ≡ ok (e', db')
    → (e : Escrow) × (find (has_id id) db.accounts ≡ some e)
      × (has_valid_balances (f e) ≡ true)
      × (e' ≡ f e)
      × (db' ≡ record db { accounts = update (has_id id) f db.accounts })
unfolding update_escrow
update_escrow-eq-ok id f db db' e' h = elim (Option-cases (find (has_id id) db.accounts)) [
  | inl n ↦ ground arith
  | inr (e, s) ↦ elim (Bool-cases (has_valid_balances (f e))) [
    | inl v ↦ (e, s, v, ground arith, ground arith)
    | inr v ↦ ground arith
  ]
]

pub credit-eq-ok :
    (group contract_id : String) (amount : ℤ) (e : Escrow) (db db' : Db) (r : Funding)
    → credit group contract_id amount e db ≡ ok (r, db')
    → (e₀ : Escrow) × (find (has_id e.id) db.accounts ≡ some e₀)
      × (has_valid_balances (plus_held amount e₀) ≡ true)
      × (r ≡ credited (plus_held amount e₀))
      × (db'
          ≡ moved e.id
              (plus_held amount)
              group
              (hold_legs (plus_held amount e₀) contract_id amount)
              (funded_event (plus_held amount e₀) contract_id amount)
              db)
unfolding credit
credit-eq-ok group contract_id amount e db db' r h =
    elim (Option-cases (find (has_id e.id) db.accounts)) [
      | inl n ↦ ground arith
      | inr (e₀, s) ↦ elim (Bool-cases (has_valid_balances (plus_held amount e₀))) [
        | inl v ↦
            let d : Db = record db {
              accounts = update (has_id e.id) (plus_held amount) db.accounts;
            } in
            let w = write_legs-hold_legs group contract_id (plus_held amount e₀) amount d in
            (e₀, s, v, ground (arith, w), ground (arith, w))
        | inr v ↦ ground arith
      ]
    ]

pub pay_out-eq-ok :
    (group id : String) (m w : Option String) (held amount : ℤ) (db db' : Db) (e' : Escrow)
    → pay_out group id m w held amount db ≡ ok (e', db')
    → let f = held_to_released amount (status_after_release (held -ℤ amount)) in
      (e : Escrow) × (find (has_id id) db.accounts ≡ some e)
      × (has_valid_balances (f e) ≡ true)
      × (e' ≡ f e)
      × (db'
          ≡ moved id f group
              (payment_legs TxnType.escrow_release AccountKind.freelancer_balance (f e) amount none)
              (released_event (f e) m w amount)
              db)
unfolding pay_out
pay_out-eq-ok group id m w held amount db db' e' h =
    let f = held_to_released amount (status_after_release (held -ℤ amount)) in
    elim (Option-cases (find (has_id id) db.accounts)) [
      | inl n ↦ ground arith
      | inr (e, s) ↦ elim (Bool-cases (has_valid_balances (f e))) [
        | inl v ↦
            let d : Db = record db { accounts = update (has_id id) f db.accounts } in
            let w =
              write_legs-payment_legs group TxnType.escrow_release AccountKind.freelancer_balance
                (f e) amount none d in
            (e, s, v, ground (arith, w), ground (arith, w))
        | inr v ↦ ground arith
      ]
    ]

-- `leb_ℤ` and `ltb_ℤ` that fail, as orders.
pub pos_of_guard : (a : ℤ) → leb_ℤ a (pos 0) ≡ false → pos 0 <ℤ a
pos_of_guard a h = ground arith

pub fits_of_guard : (h s a : ℤ) → ltb_ℤ (h -ℤ s) a ≡ false → s +ℤ a ≤ℤ h
fits_of_guard h s a g = let k : a ≤ℤ h -ℤ s = ground arith in omega int_laws

pub refund_escrow-eq-ok :
    (group id : String) (amount : ℤ) (reason : String) (db db' : Db) (e' : Escrow)
    → refund_escrow group id amount reason db ≡ ok (e', db')
    → (e : Escrow) × (find (has_id id) db.accounts ≡ some e)
      × (pos 0 <ℤ amount)
      × (reserved_sum id db +ℤ amount ≤ℤ e.held_cents)
      × let f = held_to_refunded amount (status_after_refund (e.held_cents -ℤ amount)) in
        (has_valid_balances (f e) ≡ true)
        × (e' ≡ f e)
        × (db'
            ≡ moved id f group
                (payment_legs TxnType.refund AccountKind.refunds
                  (f e)
                  amount
                  (if reason == "" then none else some reason))
                (refunded_event (f e) amount reason)
                db)
unfolding refund_escrow
refund_escrow-eq-ok group id amount reason db db' e' h = elim (Bool-cases (leb_ℤ amount (pos 0))) [
  | inl low ↦ ground arith
  | inr positive ↦ elim (Option-cases (find (has_id id) db.accounts)) [
    | inl n ↦ ground arith
    | inr (e, s) ↦
        let f = held_to_refunded amount (status_after_refund (e.held_cents -ℤ amount)) in
        let d : Db = record db { accounts = update (has_id id) f db.accounts } in
        let w =
          write_legs-payment_legs group TxnType.refund AccountKind.refunds (f e) amount
            (if reason == "" then none else some reason) d in
        elim (Bool-cases (ltb_ℤ (e.held_cents -ℤ reserved_sum id db) amount)) [
          | inl short ↦ ground arith
          | inr fits ↦ elim (Bool-cases (has_valid_balances (f e))) [
            | inl v ↦ (
              e,
              s,
              pos_of_guard amount positive,
              fits_of_guard e.held_cents _ amount fits,
              (v, ground (arith, w), ground (arith, w)),
            )
            | inr v ↦ ground arith
          ]
        ]
  ]
]
