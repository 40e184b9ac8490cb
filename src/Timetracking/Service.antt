-- ===== src/Timetracking/Service.antt =====
-- The methods of services/timetracking/internal/service/service.go, and `Parties` of
-- services/timetracking/internal/contractparties/client.go. The activity algorithm, the ISO week of
-- a time, the answer of the contract service and the ids that are drawn are arguments.
use aizorix_freelancer.Base.{
  ℕ, suc, String, Option, none, some, List, [], ◌∷◌, not, ◌||◌, ◌==◌, if◌then◌else◌,
}
use aizorix_freelancer.Base.Int.{ℤ, pos, ◌+ℤ◌, wrap_int64}
use aizorix_freelancer.Base.Outbox.{Event, text, count, texts}
use aizorix_freelancer.Base.Tx.{Tx, pure, fail, fail_if, ◌>>=◌, ◌>>◌}
use aizorix_freelancer.Timetracking.Tables.{
  Slice, Sample, SliceResult, IncomingSlice, Parties, StartResult, CloseResult, Timesheet, Db,
  Error, forbidden,
}
use aizorix_freelancer.Timetracking.Reasons.{join_reasons}
use aizorix_freelancer.Timetracking.Store.{
  session_freelancer, null_if_empty, open_session, upsert_slice, close_session, accrue_timesheet,
  contract_terms, get_timesheet, enqueue,
}

-- Any error of the lookup is forbidden.
abbrev pub parties_or_forbidden : Option Parties → Tx Db Error Parties
parties_or_forbidden none = fail forbidden
parties_or_forbidden (some p) = pure p

unfoldable pub start_session :
    (String → Option Parties)
    → (ℕ → String)
    → String
    → String
    → String
    → String
    → String
    → ℕ
    → Tx Db Error StartResult
unfolding open_session
start_session lookup iso_week new_id contract_id freelancer device tz started = do
  fail_if (contract_id == "") forbidden
  p ← parties_or_forbidden (lookup contract_id)
  fail_if (freelancer == "" || (not (freelancer == p.freelancer_id) || not (p.status == "active")))
      forbidden
  id ← open_session new_id contract_id freelancer device tz (iso_week started) started
  pure (record { session_id = id; billing_week = iso_week started; capture_interval = 900 })

unfoldable pub require_session_owner : String → String → Tx Db Error (Unit {0})
unfolding session_freelancer
require_session_owner session caller = do
  freelancer ← session_freelancer session
  fail_if (not (freelancer == caller)) forbidden

-- `sum`, from the sums so far.
abbrev pub key_sum : ℤ → List Sample → ℤ
key_sum kb [] = kb
key_sum kb (x ∷ xs) = key_sum (wrap_int64 (kb +ℤ x.keyboard_count)) xs

abbrev pub mouse_sum : ℤ → List Sample → ℤ
mouse_sum mouse [] = mouse
mouse_sum mouse (x ∷ xs) = mouse_sum (wrap_int64 (mouse +ℤ x.mouse_count)) xs

module _ (compute : List Sample → ℕ → ℕ → SliceResult) where
  abbrev pub result_of : IncomingSlice → SliceResult
  result_of x = compute x.samples x.slice_start x.slice_end

  abbrev pub slice_row : IncomingSlice → Slice
  slice_row x = record {
    session_id = x.session_id;
    contract_id = x.contract_id;
    slice_start = x.slice_start;
    slice_end = x.slice_end;
    keyboard_events = key_sum (pos 0) x.samples;
    mouse_events = mouse_sum (pos 0) x.samples;
    active_seconds = (result_of x).active_seconds;
    activity_pct = (result_of x).activity_pct;
    active_app = x.active_app;
    active_app_title = x.active_app_title;
    browser_host = x.browser_host;
    screenshot_id = null_if_empty x.screenshot_id;
    is_manual = x.is_manual;
    flagged = (result_of x).suspicious;
    flag_reason = join_reasons (result_of x).suspect_reasons;
  }

  abbrev pub suspicious_event : IncomingSlice → Event
  suspicious_event x = record {
    aggregate_type = "contract";
    aggregate_id = x.contract_id;
    event_type = "activity.suspicious";
    topic = "worksession.events";
    partition_key = x.contract_id;
    payload =
        ("contract_id", text x.contract_id)
        ∷ ("session_id", text x.session_id)
        ∷ ("slice_start", count x.slice_start)
        ∷ ("reasons", texts (result_of x).suspect_reasons)
        ∷ ("activity_pct", count (result_of x).activity_pct)
        ∷ [];
  }

  -- One round of the loop.
  unfoldable pub ingest_slice : IncomingSlice → Tx Db Error (Unit {0})
  unfolding upsert_slice enqueue
  ingest_slice x = do
    upsert_slice (slice_row x)
    if (result_of x).suspicious then enqueue (suspicious_event x) else pure tt

  -- The loop, from a number of slices accepted so far.
  unfoldable pub ingest_all : ℕ → List IncomingSlice → Tx Db Error ℕ
  ingest_all accepted [] = pure accepted
  ingest_all accepted (x ∷ xs) = do ingest_slice x; ingest_all (suc accepted) xs

  unfoldable pub ingest_slices : String → String → List IncomingSlice → Tx Db Error ℕ
  unfolding require_session_owner
  ingest_slices session caller xs = do require_session_owner session caller; ingest_all 0 xs

abbrev pub closed_event : String → String → String → ℕ → ℕ → Event
closed_event session contract_id week active avg = record {
  aggregate_type = "contract";
  aggregate_id = contract_id;
  event_type = "worksession.closed";
  topic = "worksession.events";
  partition_key = contract_id;
  payload =
      ("session_id", text session)
      ∷ ("contract_id", text contract_id)
      ∷ ("billing_week", text week)
      ∷ ("billable_seconds", count active)
      ∷ ("avg_activity_pct", count avg)
      ∷ [];
}

unfoldable pub stop_session : String → String → String → ℕ → Tx Db Error CloseResult
unfolding require_session_owner close_session contract_terms accrue_timesheet enqueue
stop_session session caller memo ended = do
  require_session_owner session caller
  (active, idle, avg, contract_id, week) ← close_session session ended memo
  terms ← contract_terms contract_id
  accrue_timesheet contract_id week active avg terms.hourly_rate_cents
  enqueue (closed_event session contract_id week active avg)
  pure (record { active_seconds = active; idle_seconds = idle; avg_activity_pct = avg })

unfoldable pub timesheet : (ℕ → String) → ℕ → String → String → Tx Db Error Timesheet
unfolding get_timesheet
timesheet iso_week now contract_id week =
    get_timesheet contract_id (if week == "" then iso_week now else week)
