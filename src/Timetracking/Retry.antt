-- ===== src/Timetracking/Retry.antt =====
-- `IngestSlices` of services/timetracking/internal/service/service.go: a batch that the tracker
-- sends again.
use aizorix_freelancer.Base.{
  ℕ, suc, ◌+◌, String, Bool, true, some, List, [], ◌∷◌, ◌++◌, ◌≡◌, refl, ◌==◌, ◌&&◌, arith, inl,
  inr, ap, sym, ◌∙◌, map, if◌then◌else◌, Option-cases, Bool-cases, is_some,
}
use aizorix_freelancer.Base.Table.{find}
use aizorix_freelancer.Base.Tx.{ok, err}
use aizorix_freelancer.Timetracking.Tables.{
  Session, Sample, SliceResult, IncomingSlice, Db, constraint_violation,
}
use aizorix_freelancer.Timetracking.Store.{
  has_id, same_slice, put_slice, upsert_slice, has_valid_counts, enqueue, session_freelancer,
  count_rows,
}
use aizorix_freelancer.Timetracking.Service.{
  result_of, slice_row, suspicious_event, ingest_slice, ingest_all, ingest_slices,
  require_session_owner,
}
use aizorix_freelancer.Timetracking.Slices.{put_all, place_all, find-put_all, place_all_twice}

module _ (compute : List Sample → ℕ → ℕ → SliceResult) where
  abbrev pub ingested : IncomingSlice → Db → Db
  ingested x db = record db {
    time_slices = put_slice (slice_row compute x) db.time_slices;
    outbox =
        if (result_of compute x).suspicious
        then db.outbox ++ suspicious_event compute x ∷ []
        else db.outbox;
  }

  abbrev pub all_ingested : List IncomingSlice → Db → Db
  all_ingested [] db = db
  all_ingested (x ∷ xs) db = all_ingested xs (ingested x db)

  -- The session is there, and the counts fit their columns.
  abbrev pub is_accepted : List Session → IncomingSlice → Bool
  is_accepted ss x =
      is_some (find (has_id x.session_id) ss) && has_valid_counts (slice_row compute x)

  abbrev pub are_accepted : List Session → List IncomingSlice → Bool
  are_accepted ss [] = true
  are_accepted ss (x ∷ xs) = is_accepted ss x && are_accepted ss xs

  ingest_slice_lem :
      (x : IncomingSlice) (db : Db)
      → ingest_slice compute x db ≡ (
          if is_accepted db.work_sessions x
          then ok (tt, ingested x db)
          else err constraint_violation)
  unfolding ingest_slice upsert_slice enqueue
  ingest_slice_lem x db = elim (Option-cases (find (has_id x.session_id) db.work_sessions)) [
    | inl n ↦ ground arith
    | inr (row, s) ↦ elim (Bool-cases (has_valid_counts (slice_row compute x))) [
      | inl v ↦ elim (Bool-cases (result_of compute x).suspicious) [
        | inl q ↦ ground arith
        | inr q ↦ ground arith
      ]
      | inr v ↦ ground arith
    ]
  ]

  pub ingest_all_lem :
      (n : ℕ) (xs : List IncomingSlice) (db : Db)
      → ingest_all compute n xs db ≡ (
          if are_accepted db.work_sessions xs
          then ok (n + count_rows xs, all_ingested xs db)
          else err constraint_violation)
  unfolding ingest_all
  ingest_all_lem n [] db = ground arith
  ingest_all_lem n (x ∷ xs) db = elim (Bool-cases (is_accepted db.work_sessions x)) [
    | inl a ↦
        let first : ingest_slice compute x db ≡ ok (tt, ingested x db) =
          ingest_slice_lem x db ∙ rw a refl in
        ground (arith, first, ingest_all_lem (suc n) xs (ingested x db), a)
    | inr a ↦
        let first : ingest_slice compute x db ≡ err constraint_violation =
          ingest_slice_lem x db ∙ rw a refl in
        ground (arith, first, a)
  ]

  -- What the batch makes of the rows, of the sessions.
  time_slices-all_ingested :
      (xs : List IncomingSlice) (db : Db)
      → (all_ingested xs db).time_slices ≡ put_all (map (slice_row compute) xs) db.time_slices
  time_slices-all_ingested [] db = refl
  time_slices-all_ingested (x ∷ xs) db = time_slices-all_ingested xs (ingested x db)

  pub work_sessions-all_ingested :
      (xs : List IncomingSlice) (db : Db) → (all_ingested xs db).work_sessions ≡ db.work_sessions
  work_sessions-all_ingested [] db = refl
  work_sessions-all_ingested (x ∷ xs) db = work_sessions-all_ingested xs (ingested x db)

  rows_twice :
      (xs : List IncomingSlice) (s : String) (t : ℕ) (db : Db)
      → find (same_slice s t) (all_ingested xs (all_ingested xs db)).time_slices
        ≡ find (same_slice s t) (all_ingested xs db).time_slices
  rows_twice xs s t db =
      let rows = map (slice_row compute) xs in
      let once = time_slices-all_ingested xs db in
      ap (find (same_slice s t)) (time_slices-all_ingested xs (all_ingested xs db))
      ∙ (find-put_all rows (all_ingested xs db).time_slices s t
          ∙ (ap (λ r. place_all rows s t (find (same_slice s t) r)) once
              ∙ (ap (place_all rows s t) (find-put_all rows db.time_slices s t)
                  ∙ (place_all_twice rows s t (find (same_slice s t) db.time_slices)
                      ∙ (sym (find-put_all rows db.time_slices s t)
                          ∙ ap (find (same_slice s t)) (sym once))))))

  pub ingest_slices-eq-ok :
      (session caller : String) (n : ℕ) (xs : List IncomingSlice) (db db' : Db)
      → ingest_slices compute session caller xs db ≡ ok (n, db')
      → (row : Session) × (find (has_id session) db.work_sessions ≡ some row)
        × ((row.freelancer_id == caller) ≡ true)
        × (are_accepted db.work_sessions xs ≡ true)
        × (n ≡ count_rows xs)
        × (db' ≡ all_ingested xs db)
  unfolding ingest_slices require_session_owner session_freelancer
  ingest_slices-eq-ok session caller n xs db db' h =
      elim (Option-cases (find (has_id session) db.work_sessions)) [
        | inl e ↦ ground arith
        | inr (row, s) ↦ elim (Bool-cases (row.freelancer_id == caller)) [
          | inl o ↦ elim (Bool-cases (are_accepted db.work_sessions xs)) [
            | inl a ↦
                let run : ingest_all compute 0 xs db ≡ ok (0 + count_rows xs, all_ingested xs db) =
                  ingest_all_lem 0 xs db ∙ rw a refl in
                (row, s, o, a, ground arith, ground arith)
            | inr a ↦
                let run : ingest_all compute 0 xs db ≡ err constraint_violation =
                  ingest_all_lem 0 xs db ∙ rw a refl in
                ground arith
          ]
          | inr o ↦ ground arith
        ]
      ]

  -- A batch of slices that was accepted is accepted when it is sent again, with the same number of
  -- slices, and after it each row, by its session and its start, is what the first batch left.
  pub ingest_slices_retry :
      (session caller : String) (n : ℕ) (xs : List IncomingSlice) (db db' : Db)
      → ingest_slices compute session caller xs db ≡ ok (n, db')
      → (db'' : Db) × (ingest_slices compute session caller xs db' ≡ ok (n, db''))
        × ((s : String) (t : ℕ)
            → find (same_slice s t) db''.time_slices ≡ find (same_slice s t) db'.time_slices)
  unfolding ingest_slices require_session_owner session_freelancer
  ingest_slices_retry session caller n xs db db' h =
      let (row, s, o, a, same_n, same) = ingest_slices-eq-ok session caller n xs db db' h in
      let kept : db'.work_sessions ≡ db.work_sessions =
        ap (λ d. d.work_sessions) same ∙ work_sessions-all_ingested xs db in
      let accepted : are_accepted db'.work_sessions xs ≡ true =
        ap (λ r. are_accepted r xs) kept ∙ a in
      let run : ingest_all compute 0 xs db' ≡ ok (0 + count_rows xs, all_ingested xs db') =
        ingest_all_lem 0 xs db' ∙ rw accepted refl in
      let found : find (has_id session) db'.work_sessions ≡ some row =
        ap (find (has_id session)) kept ∙ s in
      (
        all_ingested xs db',
        ground (arith, run, found, o, same_n),
        λ t u.
            ap (λ d. find (same_slice t u) (all_ingested xs d).time_slices) same
            ∙ (rows_twice xs t u db ∙ ap (λ d. find (same_slice t u) d.time_slices) (sym same)),
      )
