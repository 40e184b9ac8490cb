-- ===== src/Timetracking/Tests.antt =====
-- The time tracking service on concrete requests.
use aizorix_freelancer.Base.{
  ℕ, String, true, false, Option, none, some, List, [], ◌∷◌, ◌≡◌, refl, ◌==◌, arith, if◌then◌else◌,
}
use aizorix_freelancer.Base.Int.{pos, ◌+ℤ◌, ◌-ℤ◌}
use aizorix_freelancer.Base.Table.{find}
use aizorix_freelancer.Base.Tx.{Result, ok}
use aizorix_freelancer.Timetracking.Tables.{
  Session, Sample, SliceResult, IncomingSlice, Parties, CloseResult, ContractRow, Db,
}
use aizorix_freelancer.Timetracking.Store.{
  session_freelancer, open_session, upsert_slice, put_slice, enqueue, same_slice, has_id,
}
use aizorix_freelancer.Timetracking.Service.{
  start_session, require_session_owner, ingest_slice, ingest_all, ingest_slices, stop_session,
}
use aizorix_freelancer.Timetracking.Retry.{ingest_slices_retry}
use aizorix_freelancer.Timetracking.Billing.{sheet_seconds, billed_seconds}
use aizorix_freelancer.Timetracking.Requests.{
  Request, start, submit, empty, handle, serve, serve-timesheets,
}
use aizorix_freelancer.Timetracking.Owners.{serve-session_owner}

abbrev all_active : List Sample → ℕ → ℕ → SliceResult
all_active xs from to = record {
  activity_pct = 100;
  active_seconds = 600;
  suspicious = true;
  suspect_reasons = "constant" ∷ [];
}

abbrev hourly : ContractRow
hourly = record { id = "c"; hourly_rate_cents = some (pos 6000); weekly_hour_limit = none }

abbrev parties_c : Parties
parties_c = record {
  contract_id = "c";
  client_id = "client";
  freelancer_id = "f";
  status = "active";
}

abbrev lookup_c : String → Option Parties
lookup_c id = if id == "c" then some parties_c else none

abbrev freelancer_of : String → String
freelancer_of _ = "f"

abbrev slice_at : ℕ → IncomingSlice
slice_at t = record {
  session_id = "s";
  contract_id = "c";
  slice_start = t;
  slice_end = 900;
  samples = [];
  active_app = "editor";
  active_app_title = "";
  browser_host = "";
  screenshot_id = "";
  is_manual = false;
}

abbrev worked : List Request
worked =
    start lookup_c (λ _. "2026-W01") "s" "c" "f" "" "UTC" 0
    ∷ submit "s" "f" (slice_at 0 ∷ slice_at 900 ∷ [])
    ∷ []

abbrev db_worked : Db
db_worked = serve all_active worked (empty (hourly ∷ []))

abbrev after : {E A : Type 0} → Result E (A × Db) → Db
after (ok (_, db)) = db
after _ = empty []

serve-timesheets_example :
    let db = serve all_active worked (empty (hourly ∷ [])) in
    sheet_seconds "c" "2026-W01" db ≡ billed_seconds "c" "2026-W01" db
serve-timesheets_example = serve-timesheets all_active worked (hourly ∷ []) "c" "2026-W01"

abbrev batch : List IncomingSlice
batch = slice_at 900 ∷ slice_at 1800 ∷ slice_at 900 ∷ []

ingest_slices_retry_example :
    let db = after (ingest_slices all_active "s" "f" batch db_worked) in
    (db' : Db) × (ingest_slices all_active "s" "f" batch db ≡ ok (3, db'))
    × ((s : String) (t : ℕ)
        → find (same_slice s t) db'.time_slices ≡ find (same_slice s t) db.time_slices)
unfolding serve ingest_slices ingest_all ingest_slice upsert_slice put_slice enqueue
    require_session_owner session_freelancer start_session open_session handle ◌+ℤ◌ ◌-ℤ◌
ingest_slices_retry_example =
    ingest_slices_retry all_active "s" "f" 3 batch db_worked
      (after (ingest_slices all_active "s" "f" batch db_worked)) refl

abbrev result_1200 : CloseResult
result_1200 = record { active_seconds = 1200; idle_seconds = 300; avg_activity_pct = 100 }

serve-session_owner_example :
    let db = serve all_active worked (empty (hourly ∷ [])) in
    ((n : ℕ) (xs : List IncomingSlice) (db' : Db)
      → ingest_slices all_active "s" "mallory" xs db ≡ ok (n, db')
      → (x : Session) × (find (has_id "s") db.work_sessions ≡ some x)
        × ("mallory" ≡ freelancer_of x.contract_id))
    × ((memo : String) (ended : ℕ) (r : CloseResult) (db' : Db)
        → stop_session "s" "mallory" memo ended db ≡ ok (r, db')
        → (x : Session) × (find (has_id "s") db.work_sessions ≡ some x)
          × ("mallory" ≡ freelancer_of x.contract_id))
serve-session_owner_example =
    serve-session_owner freelancer_of all_active worked (hourly ∷ []) "s" "mallory"
      (λ p s. ground arith, (tt, tt))
