-- ===== src/Timetracking/Owners.antt =====
-- Who may add slices to a session and stop it: the freelancer of its contract.
use aizorix_freelancer.Base.{ℕ, String, some, List, [], ◌∷◌, ◌≡◌, ◌∙◌, sym, map, eq_iff}
use mathlib.Core.Path.{subst}
use aizorix_freelancer.Base.Table.{find}
use aizorix_freelancer.Base.Rows.{All, All-append, All-find, All-update}
use aizorix_freelancer.Base.Tx.{ok, transact-keeps}
use aizorix_freelancer.Timetracking.Tables.{
  Session, Sample, SliceResult, IncomingSlice, Parties, CloseResult, ContractRow, Db,
}
use aizorix_freelancer.Timetracking.Store.{
  has_id, new_session, close_row, total_active, total_idle, average_pct,
}
use aizorix_freelancer.Timetracking.Service.{start_session, ingest_slices, stop_session}
use aizorix_freelancer.Timetracking.Retry.{work_sessions-all_ingested, ingest_slices-eq-ok}
use aizorix_freelancer.Timetracking.Billing.{stop_session-eq-ok}
use aizorix_freelancer.Timetracking.Requests.{
  Request, start, submit, stop, in_session, empty, start_session-eq-ok, handle, serve,
}

module _ (freelancer_of : String → String) where
  -- The contract service answers with the contract's freelancer.
  abbrev pub Answers : Request → Type 0
  Answers (start lookup iso_week new_id contract_id freelancer device tz started) =
      (p : Parties) → lookup contract_id ≡ some p → p.freelancer_id ≡ freelancer_of contract_id
  Answers (submit session caller xs) = Unit
  Answers (stop session caller memo ended) = Unit

  abbrev pub AllAnswer : List Request → Type 0
  AllAnswer rs = All Answers rs

  abbrev pub Owned : Session → Type 0
  Owned x = x.freelancer_id ≡ freelancer_of x.contract_id

  abbrev pub AllOwned : Db → Type 0
  AllOwned db = All Owned db.work_sessions

module _ (freelancer_of : String → String) (compute : List Sample → ℕ → ℕ → SliceResult) where
  handle-AllOwned :
      (r : Request) (db : Db)
      → Answers freelancer_of r
      → AllOwned freelancer_of db
      → AllOwned freelancer_of (handle compute r db)
  unfolding handle
  handle-AllOwned (start lookup iso_week new_id contract_id freelancer device tz started) db k b =
      transact-keeps (AllOwned freelancer_of)
        (start_session lookup iso_week new_id contract_id freelancer device tz started) db b
        (λ r db' h.
          let (p, s, o, a, same) =
            start_session-eq-ok lookup iso_week new_id contract_id freelancer device tz started db
              db' r h in
          subst (AllOwned freelancer_of) (sym same) (
            All-append (Owned freelancer_of)
              (new_session new_id contract_id freelancer device tz (iso_week started) started)
              db.work_sessions b ((eq_iff freelancer p.freelancer_id).0 o ∙ k p s)))
  handle-AllOwned (submit session caller xs) db k b =
      transact-keeps (AllOwned freelancer_of)
        (ingest_slices compute session caller (map (in_session session) xs)) db b
        (λ n db' h.
          let (x, s, o, a, same_n, same) =
            ingest_slices-eq-ok compute session caller n (map (in_session session) xs) db db' h in
          let kept = work_sessions-all_ingested compute (map (in_session session) xs) db in
          subst (AllOwned freelancer_of) (sym same)
            (subst (All (Owned freelancer_of)) (sym kept) b))
  handle-AllOwned (stop session caller memo ended) db k b =
      transact-keeps (AllOwned freelancer_of) (stop_session session caller memo ended) db b
        (λ r db' h.
          let (x, s, o, c, t, same_r, same) =
            stop_session-eq-ok session caller memo ended db db' r h in
          subst (AllOwned freelancer_of) (sym same) (
            All-update (Owned freelancer_of) (has_id session)
              (close_row ended memo (total_active session db) (total_idle session db)
                (average_pct session db))
              db.work_sessions (λ _ p. p) b))

  serve-AllOwned :
      (rs : List Request) (db : Db)
      → AllAnswer freelancer_of rs
      → AllOwned freelancer_of db
      → AllOwned freelancer_of (serve compute rs db)
  unfolding serve
  serve-AllOwned [] db k b = b
  serve-AllOwned (r ∷ rs) db k b =
      serve-AllOwned rs (handle compute r db) k.1 (handle-AllOwned r db k.0 b)

  -- Where the contract service always answers with the contract's freelancer: whatever requests
  -- were served, from tables with the contracts only, who has slices accepted for a session, or
  -- stops it, is the freelancer of the session's contract.
  pub serve-session_owner :
      (rs : List Request) (cs : List ContractRow) (session caller : String)
      → AllAnswer freelancer_of rs
      → let db = serve compute rs (empty cs) in
        ((n : ℕ) (xs : List IncomingSlice) (db' : Db)
          → ingest_slices compute session caller xs db ≡ ok (n, db')
          → (x : Session) × (find (has_id session) db.work_sessions ≡ some x)
            × (caller ≡ freelancer_of x.contract_id))
        × ((memo : String) (ended : ℕ) (r : CloseResult) (db' : Db)
            → stop_session session caller memo ended db ≡ ok (r, db')
            → (x : Session) × (find (has_id session) db.work_sessions ≡ some x)
              × (caller ≡ freelancer_of x.contract_id))
  serve-session_owner rs cs session caller k =
      let db = serve compute rs (empty cs) in
      let all = serve-AllOwned rs (empty cs) k tt in
      (
        λ n xs db' h.
            let (x, s, o, _, _, _) = ingest_slices-eq-ok compute session caller n xs db db' h in
            (
              x,
              s,
              sym ((eq_iff x.freelancer_id caller).0 o)
                  ∙ All-find (Owned freelancer_of) (has_id session) x db.work_sessions all s,
            ),
        λ memo ended r db' h.
            let (x, s, o, _, _, _, _) = stop_session-eq-ok session caller memo ended db db' r h in
            (
              x,
              s,
              sym ((eq_iff x.freelancer_id caller).0 o)
                  ∙ All-find (Owned freelancer_of) (has_id session) x db.work_sessions all s,
            ),
      )
