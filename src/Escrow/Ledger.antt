-- ===== src/Escrow/Ledger.antt =====
-- The double-entry ledger against the balances of the accounts.
use aizorix_freelancer.Base.{
  String, Bool, true, false, some, [], ◌∷◌, ◌++◌, ◌≡◌, refl, if◌then◌else◌,
}
use aizorix_freelancer.Base.Int.{ℤ, pos, ◌+ℤ◌, int_laws, parts_of_eq, eq_of_parts, +ℤ_zero}
use aizorix_freelancer.Base.Table.{find, update, sum_by, sum_by-append, sum_by-update}
use aizorix_freelancer.Escrow.Tables.{Escrow, AccountKind, Leg, Posting, Db}
use aizorix_freelancer.Escrow.Store.{
  has_id, postings, plus_held, held_to_released, held_to_refunded,
}
use aizorix_freelancer.Base.Outbox.{Event}
use aizorix_freelancer.Escrow.Effects.{
  moved, IsEmptyAccount, Effect, opened, claimed, deposited, allocated, paid, returned, Effects,
  unchanged, step,
}

abbrev pub same_kind : AccountKind → AccountKind → Bool
same_kind AccountKind.escrow AccountKind.escrow = true
same_kind AccountKind.escrow_contract AccountKind.escrow_contract = true
same_kind AccountKind.freelancer_balance AccountKind.freelancer_balance = true
same_kind AccountKind.refunds AccountKind.refunds = true
same_kind _ _ = false

-- What a posting adds to the balance of an account kind.
abbrev pub posted : AccountKind → Posting → ℤ
posted kind p = if same_kind p.leg.account_kind kind then p.leg.amount_cents else pos 0

abbrev pub balance : AccountKind → Db → ℤ
balance kind db = sum_by (posted kind) db.transactions

abbrev pub total_held : Db → ℤ
total_held db = sum_by (λ e. e.held_cents) db.accounts

abbrev pub total_released : Db → ℤ
total_released db = sum_by (λ e. e.released_cents) db.accounts

abbrev pub total_refunded : Db → ℤ
total_refunded db = sum_by (λ e. e.refunded_cents) db.accounts

-- What the balances of the four account kinds are, in the cents of all accounts.
pub record IsReconciled (db : Db) : Type 0 where
  pub freelancers : balance AccountKind.freelancer_balance db ≡ total_released db
  pub clients : balance AccountKind.refunds db ≡ total_refunded db
  pub contracts :
      balance AccountKind.escrow_contract db
      ≡ total_held db +ℤ total_released db +ℤ total_refunded db
  pub zero_sum :
      balance AccountKind.escrow db
        +ℤ balance AccountKind.escrow_contract db
        +ℤ balance AccountKind.freelancer_balance db
        +ℤ balance AccountKind.refunds db
      ≡ pos 0

-- The balance after two more legs.
balance_after :
    (kind : AccountKind) (group : String) (db : Db) (l m : Leg)
    → sum_by (posted kind) (db.transactions ++ postings group (l ∷ m ∷ []))
      ≡ balance kind db
        +ℤ ((if same_kind l.account_kind kind then l.amount_cents else pos 0)
            +ℤ (if same_kind m.account_kind kind then m.amount_cents else pos 0))
unfolding postings
balance_after kind group db l m =
    rw (sum_by-append (posted kind) db.transactions (postings group (l ∷ m ∷ [])), +ℤ_zero)

-- What two legs add to the balance of a kind.
abbrev delta : AccountKind → Leg → Leg → ℤ
delta kind l m =
    (if same_kind l.account_kind kind then l.amount_cents else pos 0)
    +ℤ (if same_kind m.account_kind kind then m.amount_cents else pos 0)

-- A movement keeps the books if its legs follow the columns of its account.
module _ (db : Db) (id : String) (f : Escrow → Escrow) (e : Escrow) (group : String) (l m : Leg)
    (ev : Event) (s : find (has_id id) db.accounts ≡ some e) (r : IsReconciled db) where
  column :
      (v : Escrow → ℤ)
      → sum_by v (update (has_id id) f db.accounts) +ℤ v e ≡ sum_by v db.accounts +ℤ v (f e)
  column v = sum_by-update v (has_id id) f e db.accounts s

  kind_follows :
      (kind : AccountKind) (v : Escrow → ℤ)
      → balance kind db ≡ sum_by v db.accounts
      → delta kind l m +ℤ v e ≡ v (f e)
      → sum_by (posted kind) (db.transactions ++ postings group (l ∷ m ∷ []))
        ≡ sum_by v (update (has_id id) f db.accounts)
  kind_follows kind v before d = eq_of_parts _ _ (
      omega (
        int_laws,
        parts_of_eq _ _ (balance_after kind group db l m),
        parts_of_eq _ _ (column v),
        parts_of_eq _ _ before,
        parts_of_eq _ _ d,
      ))

  contracts_follow :
      delta AccountKind.escrow_contract l m
          +ℤ (e.held_cents +ℤ e.released_cents +ℤ e.refunded_cents)
        ≡ (f e).held_cents +ℤ (f e).released_cents +ℤ (f e).refunded_cents
      → let db' = moved id f group (l ∷ m ∷ []) ev db in
        balance AccountKind.escrow_contract db'
        ≡ total_held db' +ℤ total_released db' +ℤ total_refunded db'
  contracts_follow d = eq_of_parts _ _ (
      omega (
        int_laws,
        parts_of_eq _ _ (balance_after AccountKind.escrow_contract group db l m),
        parts_of_eq _ _ (column (λ x. x.held_cents)),
        parts_of_eq _ _ (column (λ x. x.released_cents)),
        parts_of_eq _ _ (column (λ x. x.refunded_cents)),
        parts_of_eq _ _ r.contracts,
        parts_of_eq _ _ d,
      ))

  sum_stays_zero :
      delta AccountKind.escrow l m
          +ℤ delta AccountKind.escrow_contract l m
          +ℤ delta AccountKind.freelancer_balance l m
          +ℤ delta AccountKind.refunds l m
        ≡ pos 0
      → let db' = moved id f group (l ∷ m ∷ []) ev db in
        balance AccountKind.escrow db'
          +ℤ balance AccountKind.escrow_contract db'
          +ℤ balance AccountKind.freelancer_balance db'
          +ℤ balance AccountKind.refunds db'
        ≡ pos 0
  sum_stays_zero d = eq_of_parts _ _ (
      omega (
        int_laws,
        parts_of_eq _ _ (balance_after AccountKind.escrow group db l m),
        parts_of_eq _ _ (balance_after AccountKind.escrow_contract group db l m),
        parts_of_eq _ _ (balance_after AccountKind.freelancer_balance group db l m),
        parts_of_eq _ _ (balance_after AccountKind.refunds group db l m),
        parts_of_eq _ _ r.zero_sum,
        parts_of_eq _ _ d,
      ))

  moved-IsReconciled :
      delta AccountKind.freelancer_balance l m +ℤ e.released_cents ≡ (f e).released_cents
      → delta AccountKind.refunds l m +ℤ e.refunded_cents ≡ (f e).refunded_cents
      → delta AccountKind.escrow_contract l m
          +ℤ (e.held_cents +ℤ e.released_cents +ℤ e.refunded_cents)
        ≡ (f e).held_cents +ℤ (f e).released_cents +ℤ (f e).refunded_cents
      → delta AccountKind.escrow l m
          +ℤ delta AccountKind.escrow_contract l m
          +ℤ delta AccountKind.freelancer_balance l m
          +ℤ delta AccountKind.refunds l m
        ≡ pos 0
      → IsReconciled (moved id f group (l ∷ m ∷ []) ev db)
  moved-IsReconciled d₁ d₂ d₃ d₄ = record {
    freelancers =
        kind_follows AccountKind.freelancer_balance (λ x. x.released_cents) r.freelancers d₁;
    clients = kind_follows AccountKind.refunds (λ x. x.refunded_cents) r.clients d₂;
    contracts = contracts_follow d₃;
    zero_sum = sum_stays_zero d₄;
  }

-- A new account holds nothing.
opened-IsReconciled :
    (db : Db) (e : Escrow)
    → IsEmptyAccount e
    → IsReconciled db
    → IsReconciled (record db { accounts = db.accounts ++ e ∷ [] })
opened-IsReconciled db e (z₁, z₂, z₃) r =
    let column : (v : Escrow → ℤ)
        → v e ≡ pos 0
        → sum_by v (db.accounts ++ e ∷ []) ≡ sum_by v db.accounts =
      λ v z. rw (sum_by-append v db.accounts (e ∷ []), z, +ℤ_zero, +ℤ_zero) in
    record {
      freelancers = rw (column (λ x. x.released_cents) z₂) r.freelancers;
      clients = rw (column (λ x. x.refunded_cents) z₃) r.clients;
      contracts =
          rw
            (
              column (λ x. x.held_cents) z₁,
              column (λ x. x.released_cents) z₂,
              column (λ x. x.refunded_cents) z₃,
            )
            r.contracts;
      zero_sum = r.zero_sum;
    }

-- The books do not read the keys, the allocations and the outbox.
same_books :
    (db db' : Db)
    → db'.accounts ≡ db.accounts
    → db'.transactions ≡ db.transactions
    → IsReconciled db
    → IsReconciled db'
same_books db db' a t r = record {
  freelancers = rw (a, t) r.freelancers;
  clients = rw (a, t) r.clients;
  contracts = rw (a, t) r.contracts;
  zero_sum = rw t r.zero_sum;
}

-- Each change of the contract keeps the ledger reconciled with the accounts.
pub Effect-IsReconciled : {db db' : Db} → Effect db db' → IsReconciled db → IsReconciled db'
Effect-IsReconciled {db} (opened e n m z) r = opened-IsReconciled db e z r
Effect-IsReconciled {db} (claimed k n) r = same_books db _ refl refl r
Effect-IsReconciled {db} (deposited id g contract amount e ev s p v) r =
    moved-IsReconciled db id (plus_held amount) e g _ _ ev s r (omega int_laws) (omega int_laws)
      (omega int_laws) (omega int_laws)
Effect-IsReconciled {db} (allocated e a s p fits n q) r = same_books db _ refl refl r
Effect-IsReconciled {db} (paid g e e' a st ev s row v same) r =
    moved-IsReconciled _ a.escrow_id (held_to_released a.amount_cents st) e g _ _ ev s
      (same_books db _ refl refl r) (omega int_laws) (omega int_laws) (omega int_laws)
      (omega int_laws)
Effect-IsReconciled {db} (returned id g amount e st memo ev s p fits v) r =
    moved-IsReconciled db id (held_to_refunded amount st) e g _ _ ev s r (omega int_laws)
      (omega int_laws) (omega int_laws) (omega int_laws)

pub Effects-IsReconciled : {db db' : Db} → Effects db db' → IsReconciled db → IsReconciled db'
Effects-IsReconciled unchanged r = r
Effects-IsReconciled (step es e) r = Effect-IsReconciled e (Effects-IsReconciled es r)
