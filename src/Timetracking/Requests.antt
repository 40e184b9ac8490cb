-- ===== src/Timetracking/Requests.antt =====
-- The time tracking service as a state machine: each request of
-- services/timetracking/internal/httpapi/handlers.go runs one method on the tables.
use aizorix_freelancer.Base.{
  ℕ, ◌+◌, String, true, Option, some, List, [], ◌∷◌, ◌++◌, ◌≡◌, refl, ◌==◌, arith, inl, inr, ap,
  sym, ◌∙◌, map, Option-cases, Bool-cases,
}
use mathlib.Core.Path.{subst}
use aizorix_freelancer.Base.Tx.{ok, transact, transact-keeps}
use aizorix_freelancer.Timetracking.Tables.{
  Session, Sample, SliceResult, IncomingSlice, Parties, StartResult, ContractRow, Db,
}
use aizorix_freelancer.Timetracking.Store.{
  new_session, open_session, total_active, average_pct, accrued_cents,
}
use aizorix_freelancer.Base.Rows.{sum_ℕ-append}
use aizorix_freelancer.Timetracking.Service.{
  suspicious_event, result_of, start_session, ingest_slices, stop_session, closed_event,
}
use aizorix_freelancer.Timetracking.Retry.{ingested, all_ingested, ingest_slices-eq-ok}
use aizorix_freelancer.Timetracking.Billing.{
  closed_seconds, billed_seconds, sheet_seconds, sheet_after_accrue, stopped, rate_of,
  stop_session-eq-ok,
}

-- A call of a method, with what it draws and what the contract service answers.
pub data Request : Type 0 where
  start :
      (String → Option Parties)
      → (ℕ → String)
      → String
      → String
      → String
      → String
      → String
      → ℕ
      → Request
  submit : String → String → List IncomingSlice → Request
  stop : String → String → String → ℕ → Request

-- The handler puts the session of the path into each slice.
abbrev pub in_session : String → IncomingSlice → IncomingSlice
in_session session x = record x { session_id = session }

abbrev pub empty : List ContractRow → Db
empty cs = record {
  work_sessions = [];
  time_slices = [];
  timesheets = [];
  contracts = cs;
  outbox = [];
}

-- For each week of each contract, the timesheet has the seconds that the events have billed.
abbrev pub Billed : Db → Type 0
Billed db = (c w : String) → sheet_seconds c w db ≡ billed_seconds c w db

abbrev pub opened : String → String → String → String → String → String → ℕ → Db → Db
opened new_id contract_id freelancer device tz week started db = record db {
  work_sessions =
      db.work_sessions ++ new_session new_id contract_id freelancer device tz week started ∷ [];
}

pub start_session-eq-ok :
    (lookup : String → Option Parties) (iso_week : ℕ → String)
    (new_id contract_id freelancer device tz : String) (started : ℕ) (db db' : Db) (r : StartResult)
    → start_session lookup iso_week new_id contract_id freelancer device tz started db ≡ ok (r, db')
    → (p : Parties) × (lookup contract_id ≡ some p)
      × ((freelancer == p.freelancer_id) ≡ true)
      × ((p.status == "active") ≡ true)
      × (db' ≡ opened new_id contract_id freelancer device tz (iso_week started) started db)
unfolding start_session open_session
start_session-eq-ok lookup iso_week new_id contract_id freelancer device tz started db db' r h =
    elim (Option-cases (lookup contract_id)) [
      | inl n ↦ ground arith
      | inr (p, s) ↦ (p, s, ground arith, ground arith, ground arith)
    ]

stopped-Billed :
    (session memo : String) (ended : ℕ) (x : Session) (c : ContractRow) (db : Db)
    → Billed db
    → Billed (stopped session memo ended x (rate_of c) db)
stopped-Billed session memo ended x c db b k w =
    let active = total_active session db in
    let avg = average_pct session db in
    sheet_after_accrue k w x.contract_id x.billing_week active avg
      (accrued_cents (rate_of c) active) db.timesheets
    ∙ (ap
          (λ n.
            n + closed_seconds k w (closed_event session x.contract_id x.billing_week active avg))
          (b k w)
        ∙ sym (
            sum_ℕ-append (closed_seconds k w)
              (closed_event session x.contract_id x.billing_week active avg) db.outbox))

module _ (compute : List Sample → ℕ → ℕ → SliceResult) where
  -- The tables after a request, whether it succeeds or not.
  unfoldable pub handle : Request → Db → Db
  handle (start lookup iso_week new_id contract_id freelancer device tz started) db =
      (transact (start_session lookup iso_week new_id contract_id freelancer device tz started)
        db).1
  handle (submit session caller xs) db =
      (transact (ingest_slices compute session caller (map (in_session session) xs)) db).1
  handle (stop session caller memo ended) db =
      (transact (stop_session session caller memo ended) db).1

  unfoldable pub serve : List Request → Db → Db
  unfolding handle
  serve [] db = db
  serve (r ∷ rs) db = serve rs (handle r db)

  ingested-Billed : (x : IncomingSlice) (db : Db) → Billed db → Billed (ingested compute x db)
  ingested-Billed x db b c w = elim (Bool-cases (result_of compute x).suspicious) [
    | inl q ↦ rw q (
        b c w
        ∙ sym (
            sum_ℕ-append (closed_seconds c w) (suspicious_event compute x) db.outbox ∙ omega arith))
    | inr q ↦ rw q (b c w)
  ]

  all_ingested-Billed :
      (xs : List IncomingSlice) (db : Db) → Billed db → Billed (all_ingested compute xs db)
  all_ingested-Billed [] db b = b
  all_ingested-Billed (x ∷ xs) db b =
      all_ingested-Billed xs (ingested compute x db) (ingested-Billed x db b)

  handle-Billed : (r : Request) (db : Db) → Billed db → Billed (handle r db)
  unfolding handle
  handle-Billed (start lookup iso_week new_id contract_id freelancer device tz started) db b =
      transact-keeps Billed
        (start_session lookup iso_week new_id contract_id freelancer device tz started) db b
        (λ r db' h.
          let (p, s, o, a, same) =
            start_session-eq-ok lookup iso_week new_id contract_id freelancer device tz started db
              db' r h in
          subst Billed (sym same) b)
  handle-Billed (submit session caller xs) db b =
      transact-keeps Billed (ingest_slices compute session caller (map (in_session session) xs)) db
        b
        (λ n db' h.
          let (x, s, o, a, same_n, same) =
            ingest_slices-eq-ok compute session caller n (map (in_session session) xs) db db' h in
          subst Billed (sym same) (all_ingested-Billed (map (in_session session) xs) db b))
  handle-Billed (stop session caller memo ended) db b =
      transact-keeps Billed (stop_session session caller memo ended) db b (λ r db' h.
        let (x, s, o, c, t, same_r, same) =
          stop_session-eq-ok session caller memo ended db db' r h in
        subst Billed (sym same) (stopped-Billed session memo ended x c db b))

  serve-Billed : (rs : List Request) (db : Db) → Billed db → Billed (serve rs db)
  unfolding serve
  serve-Billed [] db b = b
  serve-Billed (r ∷ rs) db b = serve-Billed rs (handle r db) (handle-Billed r db b)

  -- Whatever requests are served, from tables with the contracts only, the billable seconds of the
  -- timesheet of a contract and week are the sum of the billable seconds of the
  -- `worksession.closed` events of that contract and week in the outbox.
  pub serve-timesheets :
      (rs : List Request) (cs : List ContractRow) (c w : String)
      → sheet_seconds c w (serve rs (empty cs)) ≡ billed_seconds c w (serve rs (empty cs))
  serve-timesheets rs cs = serve-Billed rs (empty cs) (λ c w. refl)
