-- ===== src/Timetracking/Store.antt =====
-- The queries of services/timetracking/internal/store/store.go, one transaction step each. Ids that
-- the database draws are arguments.
use aizorix_freelancer.Base.{
  ℕ, ◌+◌, ◌-◌, ◌*◌, ◌/◌, String, Bool, Option, none, some, List, [], ◌∷◌, ◌++◌, ◌&&◌, not, ◌==◌,
  ◌=ℕ=◌, leb, if◌then◌else◌, is_some,
}
use aizorix_freelancer.Base.Int.{ℤ, pos, ◌+ℤ◌, ◌-ℤ◌, wrap_int64, mul_ℕ, quot_ℕ, leb_ℤ}
use aizorix_freelancer.Base.Outbox.{Event}
use aizorix_freelancer.Base.Table.{find, update, rows_by}
use aizorix_freelancer.Base.Rows.{sum_ℕ}
use aizorix_freelancer.Base.Tx.{Tx, pure, get_db, modify, fail_if, or_fail, ◌>>=◌, ◌>>◌}
use aizorix_freelancer.Timetracking.Tables.{
  Session, SessionStatus, Slice, Timesheet, ContractRow, ContractTerms, Db, Error, not_found,
  constraint_violation,
}

abbrev pub has_id : String → Session → Bool
has_id id x = x.id == id

unfoldable pub session_freelancer : String → Tx Db Error String
session_freelancer id = do
  db ← get_db
  x ← or_fail (find (has_id id) db.work_sessions) not_found
  pure x.freelancer_id

-- `NULLIF(t, '')`
abbrev pub null_if_empty : String → Option String
null_if_empty t = if t == "" then none else some t

abbrev pub new_session : String → String → String → String → String → String → ℕ → Session
new_session new_id contract_id freelancer device tz week started = record {
  id = new_id;
  contract_id = contract_id;
  freelancer_id = freelancer;
  device_id = null_if_empty device;
  status = SessionStatus.opened;
  started_at = started;
  ended_at = none;
  timezone = tz;
  billing_week = week;
  memo = none;
  active_seconds = 0;
  idle_seconds = 0;
  billed_seconds = 0;
  avg_activity_pct = none;
}

unfoldable pub open_session :
    String → String → String → String → String → String → ℕ → Tx Db Error String
open_session new_id contract_id freelancer device tz week started = do
  db ← get_db
  fail_if (is_some (find (has_id new_id) db.work_sessions)) constraint_violation
  modify (λ d. record d {
    work_sessions =
        d.work_sessions ++ new_session new_id contract_id freelancer device tz week started ∷ [];
  })
  pure new_id

-- The row of the same `UNIQUE (session_id, slice_start)`.
abbrev pub same_slice : String → ℕ → Slice → Bool
same_slice session start x = x.session_id == session && x.slice_start =ℕ= start

-- `DO UPDATE SET`
abbrev pub overwrite : Slice → Slice → Slice
overwrite new old = record old {
  keyboard_events = new.keyboard_events;
  mouse_events = new.mouse_events;
  active_seconds = new.active_seconds;
  activity_pct = new.activity_pct;
  active_app = new.active_app;
  active_app_title = new.active_app_title;
  browser_host = new.browser_host;
  screenshot_id = new.screenshot_id;
  flagged = new.flagged;
  flag_reason = new.flag_reason;
  is_manual = new.is_manual;
}

unfoldable pub put_slice : Slice → List Slice → List Slice
put_slice new [] = new ∷ []
put_slice new (x ∷ xs) =
    let rest = put_slice new xs in
    if same_slice new.session_id new.slice_start x then overwrite new x ∷ xs else x ∷ rest

-- An INT column.
abbrev pub is_int : ℤ → Bool
is_int a = leb_ℤ (pos 0 -ℤ pos 2147483648) a && leb_ℤ a (pos 2147483647)

-- The columns are INT and SMALLINT.
abbrev pub has_valid_counts : Slice → Bool
has_valid_counts x =
    is_int x.keyboard_events
    && (is_int x.mouse_events && (leb x.active_seconds 2147483647 && leb x.activity_pct 32767))

unfoldable pub upsert_slice : Slice → Tx Db Error (Unit {0})
unfolding put_slice
upsert_slice new = do
  db ← get_db
  fail_if (not (is_some (find (has_id new.session_id) db.work_sessions))) constraint_violation
  fail_if (not (has_valid_counts new)) constraint_violation
  modify (λ d. record d { time_slices = put_slice new d.time_slices })

abbrev pub count_rows {ℓ} : {A : Type ℓ} → List A → ℕ
count_rows xs = sum_ℕ (λ _. 1) xs

-- `GREATEST(extract(epoch FROM (slice_end - slice_start))::int - active_seconds, 0)`
abbrev pub idle_of : Slice → ℕ
idle_of x = x.slice_end - x.slice_start - x.active_seconds

-- `coalesce(round(avg(v)), 0)`; halves are rounded up.
abbrev pub rounded_avg : ℕ → ℕ → ℕ
rounded_avg sum n = if n =ℕ= 0 then 0 else (2 * sum + n) / (2 * n)

abbrev pub of_session : String → Slice → Bool
of_session id x = x.session_id == id

abbrev pub total_active : String → Db → ℕ
total_active id db = sum_ℕ (λ x. x.active_seconds) (rows_by (of_session id) db.time_slices)

abbrev pub total_idle : String → Db → ℕ
total_idle id db = sum_ℕ idle_of (rows_by (of_session id) db.time_slices)

abbrev pub average_pct : String → Db → ℕ
average_pct id db =
    let xs = rows_by (of_session id) db.time_slices in
    rounded_avg (sum_ℕ (λ x. x.activity_pct) xs) (count_rows xs)

abbrev pub close_row : ℕ → String → ℕ → ℕ → ℕ → Session → Session
close_row ended memo active idle avg x = record x {
  status = SessionStatus.closed;
  ended_at = some ended;
  memo = some memo;
  active_seconds = active;
  idle_seconds = idle;
  billed_seconds = active;
  avg_activity_pct = some avg;
}

-- The columns for the active, the billed and the idle seconds are INT.
abbrev pub has_valid_seconds : ℕ → ℕ → Bool
has_valid_seconds active idle = leb active 2147483647 && leb idle 2147483647

unfoldable pub close_session : String → ℕ → String → Tx Db Error (ℕ × ℕ × ℕ × String × String)
close_session id ended memo = do
  db ← get_db
  x ← or_fail (find (has_id id) db.work_sessions) constraint_violation
  fail_if (not (has_valid_seconds (total_active id db) (total_idle id db))) constraint_violation
  modify (λ d. record d {
    work_sessions =
        update (has_id id)
          (close_row ended memo (total_active id d) (total_idle id d) (average_pct id d))
          d.work_sessions;
  })
  pure (total_active id db, total_idle id db, average_pct id db, x.contract_id, x.billing_week)

abbrev pub has_week : String → String → Timesheet → Bool
has_week contract_id week t = t.contract_id == contract_id && t.billing_week == week

abbrev pub add_to_sheet : ℕ → ℤ → ℕ → Timesheet → Timesheet
add_to_sheet seconds amount avg t = record t {
  total_seconds = t.total_seconds + seconds;
  billable_seconds = t.billable_seconds + seconds;
  amount_cents = t.amount_cents +ℤ amount;
  avg_activity_pct = avg;
}

-- `rateCents * int64(billableSeconds) / 3600`
unfoldable pub accrued_cents : ℤ → ℕ → ℤ
accrued_cents rate seconds = quot_ℕ (wrap_int64 (mul_ℕ rate seconds)) 3600

-- The columns are INT and BIGINT.
abbrev pub has_valid_sums : Timesheet → Bool
has_valid_sums t =
    leb t.total_seconds 2147483647
    && (leb t.billable_seconds 2147483647
        && (leb_ℤ (pos 0 -ℤ pos 9223372036854775808) t.amount_cents
            && leb_ℤ t.amount_cents (pos 9223372036854775807)))

abbrev pub first_sheet : String → String → ℕ → ℤ → ℕ → Timesheet
first_sheet contract_id week seconds amount avg = record {
  contract_id = contract_id;
  billing_week = week;
  total_seconds = seconds;
  billable_seconds = seconds;
  amount_cents = amount;
  avg_activity_pct = avg;
  status = "accumulating";
}

-- The row that is there with the sums added, or a first one.
abbrev pub accrue : String → String → ℕ → ℤ → ℕ → Option Timesheet → Timesheet
accrue contract_id week seconds amount avg none = first_sheet contract_id week seconds amount avg
accrue contract_id week seconds amount avg (some t) = add_to_sheet seconds amount avg t

abbrev pub put_sheet : Timesheet → Option Timesheet → List Timesheet → List Timesheet
put_sheet new none ts = ts ++ new ∷ []
put_sheet new (some _) ts = update (has_week new.contract_id new.billing_week) (λ _. new) ts

unfoldable pub accrue_timesheet : String → String → ℕ → ℕ → ℤ → Tx Db Error (Unit {0})
unfolding accrued_cents
accrue_timesheet contract_id week seconds avg rate = do
  db ← get_db
  let old = find (has_week contract_id week) db.timesheets
  let new = accrue contract_id week seconds (accrued_cents rate seconds) avg old
  fail_if (not (has_valid_sums new)) constraint_violation
  modify (λ d. record d { timesheets = put_sheet new old d.timesheets })

abbrev pub or_zero : Option ℤ → ℤ
or_zero none = pos 0
or_zero (some a) = a

abbrev pub has_contract_id : String → ContractRow → Bool
has_contract_id id c = c.id == id

unfoldable pub contract_terms : String → Tx Db Error ContractTerms
contract_terms id = do
  db ← get_db
  c ← or_fail (find (has_contract_id id) db.contracts) not_found
  pure (record {
    hourly_rate_cents = or_zero c.hourly_rate_cents;
    weekly_hour_limit = or_zero c.weekly_hour_limit;
  })

unfoldable pub get_timesheet : String → String → Tx Db Error Timesheet
get_timesheet contract_id week = do
  db ← get_db
  or_fail (find (has_week contract_id week) db.timesheets) not_found

unfoldable pub enqueue : Event → Tx Db Error (Unit {0})
enqueue ev = modify (λ d. record d { outbox = d.outbox ++ ev ∷ [] })
