-- ===== src/Timetracking/Billing.antt =====
-- `StopSession` of services/timetracking/internal/service/service.go: what a closed session adds to
-- the timesheet of its contract's week, against the events that tell the other services.
use aizorix_freelancer.Base.{
  ℕ, ◌+◌, String, Bool, true, false, Option, none, some, List, [], ◌∷◌, ◌++◌, ◌≡◌, refl, ◌==◌, ◌&&◌,
  arith, inl, inr, ap, sym, ◌∙◌, if◌then◌else◌, Option-cases, Bool-cases, eq_iff, eq_refl,
}
use aizorix_freelancer.Base.Int.{ℤ}
use aizorix_freelancer.Base.Outbox.{Event, Value, text, count}
use aizorix_freelancer.Base.Table.{
  find, update, find-append, find-append_other, find-update_replaced, find-update_other, test-find,
}
use aizorix_freelancer.Base.Tx.{ok}
use aizorix_freelancer.Timetracking.Tables.{Session, Timesheet, ContractRow, CloseResult, Db}
use aizorix_freelancer.Timetracking.Store.{
  has_id, has_week, has_contract_id, accrue, accrued_cents, put_sheet, total_active, total_idle,
  average_pct, close_row, has_valid_sums, or_zero, session_freelancer, close_session,
  accrue_timesheet, contract_terms, enqueue,
}
use aizorix_freelancer.Base.Rows.{sum_ℕ}
use aizorix_freelancer.Timetracking.Service.{closed_event, stop_session, require_session_owner}

abbrev pub field : String → List (String × Value) → Option Value
field name [] = none
field name ((key, value) ∷ rest) = if key == name then some value else field name rest

abbrev pub is_text_of : String → Option Value → Bool
is_text_of t (some (text s)) = s == t
is_text_of t _ = false

abbrev pub count_of : Option Value → ℕ
count_of (some (count n)) = n
count_of _ = 0

-- The seconds that an event bills for a week of a contract.
abbrev pub closed_seconds : String → String → Event → ℕ
closed_seconds contract_id week ev =
    if ev.event_type == "worksession.closed"
      && (is_text_of contract_id (field "contract_id" ev.payload)
          && is_text_of week (field "billing_week" ev.payload))
    then count_of (field "billable_seconds" ev.payload)
    else 0

abbrev pub billed_seconds : String → String → Db → ℕ
billed_seconds contract_id week db = sum_ℕ (closed_seconds contract_id week) db.outbox

abbrev pub billable : Option Timesheet → ℕ
billable none = 0
billable (some t) = t.billable_seconds

abbrev pub sheet_seconds : String → String → Db → ℕ
sheet_seconds contract_id week db = billable (find (has_week contract_id week) db.timesheets)

-- What a closed session adds for a week of a contract.
abbrev pub added : String → String → String → String → ℕ → ℕ
added c w contract_id week seconds = if contract_id == c && week == w then seconds else 0

closed_seconds-closed_event :
    (c w session contract_id week : String) (active avg : ℕ)
    → closed_seconds c w (closed_event session contract_id week active avg)
      ≡ added c w contract_id week active
closed_seconds-closed_event c w session contract_id week active avg = refl

billable-accrue :
    (contract_id week : String) (seconds avg : ℕ) (amount : ℤ) (o : Option Timesheet)
    → (accrue contract_id week seconds amount avg o).billable_seconds ≡ billable o + seconds
billable-accrue contract_id week seconds avg amount none = omega arith
billable-accrue contract_id week seconds avg amount (some t) = refl

both_of : (c w k l : String) → (k == c && l == w) ≡ true → (k ≡ c) × (l ≡ w)
both_of c w k l h = (ground (arith, eq_iff k c), ground (arith, eq_iff k c, eq_iff l w, h))

week_of_another :
    (c w k l : String) (x : Timesheet)
    → (k == c && l == w) ≡ false
    → has_week k l x ≡ true
    → has_week c w x ≡ false
week_of_another c w k l x h t =
    let (a, b) = both_of k l x.contract_id x.billing_week t in (λ i. (a i == c && b i == w)) ∙ h

has_week_self : (new : Timesheet) → has_week new.contract_id new.billing_week new ≡ true
has_week_self new = rw (eq_refl new.contract_id, eq_refl new.billing_week) refl

find-put_sheet_self :
    (new : Timesheet) (ts : List Timesheet)
    → find
        (has_week new.contract_id new.billing_week)
        (put_sheet new (find (has_week new.contract_id new.billing_week) ts) ts)
      ≡ some new
find-put_sheet_self new ts =
    elim (Option-cases (find (has_week new.contract_id new.billing_week) ts)) [
      | inl n ↦ rw n (
          find-append (has_week new.contract_id new.billing_week) new ts n
          ∙ rw (has_week_self new) refl)
      | inr (t, s) ↦ rw s (
          find-update_replaced (has_week new.contract_id new.billing_week) (λ _. new) t ts
            (has_week_self new) s)
    ]

-- The row of a key after a put of a row of another.
find-put_sheet :
    (c w : String) (new : Timesheet) (ts : List Timesheet)
    → find (has_week c w) (put_sheet new (find (has_week new.contract_id new.billing_week) ts) ts)
      ≡ (if new.contract_id == c && new.billing_week == w then some new else find (has_week c w) ts)
find-put_sheet c w new ts = elim (Bool-cases (new.contract_id == c && new.billing_week == w)) [
  | inl e ↦
      let (a, b) = both_of c w new.contract_id new.billing_week e in
      let same : has_week new.contract_id new.billing_week ≡ has_week c w =
        λ i. has_week (a i) (b i) in
      rw e (
        ap (λ q. find q (put_sheet new (find (has_week new.contract_id new.billing_week) ts) ts))
          (sym same)
        ∙ find-put_sheet_self new ts)
  | inr e ↦ rw e (elim (Option-cases (find (has_week new.contract_id new.billing_week) ts)) [
    | inl n ↦ rw n (find-append_other (has_week c w) new ts e)
    | inr (t, s) ↦ rw s (
        find-update_other (has_week c w) (has_week new.contract_id new.billing_week) (λ _. new) ts
          (λ x h. week_of_another c w new.contract_id new.billing_week x e h) (λ _ _. e))
  ])
]

sheet_after :
    (c w : String) (seconds : ℕ) (new : Timesheet) (ts : List Timesheet)
    → new.billable_seconds
      ≡ billable (find (has_week new.contract_id new.billing_week) ts) + seconds
    → billable (
        find
          (has_week c w)
          (put_sheet new (find (has_week new.contract_id new.billing_week) ts) ts))
      ≡ billable (find (has_week c w) ts) + added c w new.contract_id new.billing_week seconds
sheet_after c w seconds new ts h =
    ap billable (find-put_sheet c w new ts)
    ∙ elim (Bool-cases (new.contract_id == c && new.billing_week == w)) [
      | inl e ↦
          let (a, b) = both_of c w new.contract_id new.billing_week e in
          rw e (h ∙ ap (λ q. billable q + seconds) (λ i. find (has_week (a i) (b i)) ts))
      | inr e ↦ rw e (omega arith)
    ]

accrue_key :
    (contract_id week : String) (seconds avg : ℕ) (amount : ℤ) (ts : List Timesheet)
    → let new = accrue contract_id week seconds amount avg (find (has_week contract_id week) ts) in
      (new.contract_id ≡ contract_id) × (new.billing_week ≡ week)
accrue_key contract_id week seconds avg amount ts =
    elim (Option-cases (find (has_week contract_id week) ts)) [
      | inl n ↦ rw n (refl, refl)
      | inr (t, s) ↦ rw s (
          both_of contract_id week t.contract_id t.billing_week
            (test-find (has_week contract_id week) t ts s))
    ]

-- What `accrue_timesheet` makes of the seconds of every week of every contract.
pub sheet_after_accrue :
    (c w contract_id week : String) (seconds avg : ℕ) (amount : ℤ) (ts : List Timesheet)
    → let old = find (has_week contract_id week) ts in
      billable
        (find (has_week c w) (put_sheet (accrue contract_id week seconds amount avg old) old ts))
      ≡ billable (find (has_week c w) ts) + added c w contract_id week seconds
sheet_after_accrue c w contract_id week seconds avg amount ts =
    let old = find (has_week contract_id week) ts in
    let new = accrue contract_id week seconds amount avg old in
    let (a, b) = accrue_key contract_id week seconds avg amount ts in
    let moved : find (has_week new.contract_id new.billing_week) ts ≡ old =
      λ i. find (has_week (a i) (b i)) ts in
    ap (λ o. billable (find (has_week c w) (put_sheet new o ts))) (sym moved)
    ∙ (sheet_after c w seconds new ts (
          billable-accrue contract_id week seconds avg amount old
          ∙ ap (λ o. billable o + seconds) (sym moved))
        ∙ λ i. billable (find (has_week c w) ts) + added c w (a i) (b i) seconds)

abbrev pub rate_of : ContractRow → ℤ
rate_of c = or_zero c.hourly_rate_cents

abbrev pub sheet_of : Session → ℤ → ℕ → ℕ → Db → Timesheet
sheet_of x rate active avg db =
    accrue x.contract_id x.billing_week active (accrued_cents rate active) avg
      (find (has_week x.contract_id x.billing_week) db.timesheets)

-- The tables after a session was stopped.
abbrev pub stopped : String → String → ℕ → Session → ℤ → Db → Db
stopped session memo ended x rate db =
    let active = total_active session db in
    let avg = average_pct session db in
    record db {
      work_sessions =
          update (has_id session) (close_row ended memo active (total_idle session db) avg)
            db.work_sessions;
      timesheets =
          put_sheet (sheet_of x rate active avg db)
            (find (has_week x.contract_id x.billing_week) db.timesheets) db.timesheets;
      outbox = db.outbox ++ closed_event session x.contract_id x.billing_week active avg ∷ [];
    }

abbrev pub close_result : String → Db → CloseResult
close_result session db = record {
  active_seconds = total_active session db;
  idle_seconds = total_idle session db;
  avg_activity_pct = average_pct session db;
}

pub stop_session-eq-ok :
    (session caller memo : String) (ended : ℕ) (db db' : Db) (r : CloseResult)
    → stop_session session caller memo ended db ≡ ok (r, db')
    → (x : Session) × (find (has_id session) db.work_sessions ≡ some x)
      × ((x.freelancer_id == caller) ≡ true)
      × (c : ContractRow) × (find (has_contract_id x.contract_id) db.contracts ≡ some c)
      × (r ≡ close_result session db)
      × (db' ≡ stopped session memo ended x (rate_of c) db)
unfolding stop_session require_session_owner session_freelancer close_session contract_terms
    accrue_timesheet enqueue
stop_session-eq-ok session caller memo ended db db' r h =
    elim (Option-cases (find (has_id session) db.work_sessions)) [
      | inl n ↦ ground arith
      | inr (x, s) ↦ elim (Bool-cases (x.freelancer_id == caller)) [
        | inr o ↦ ground arith
        | inl o ↦ elim (Option-cases (find (has_contract_id x.contract_id) db.contracts)) [
          | inl n ↦ ground arith
          | inr (c, t) ↦
              elim (Bool-cases (
                has_valid_sums
                  (sheet_of x (rate_of c) (total_active session db) (average_pct session db) db))) [
                    | inr v ↦ ground arith
                    | inl v ↦ (x, s, o, c, t, ground arith, ground arith)
                  ]
        ]
      ]
    ]
