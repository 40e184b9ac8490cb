-- ===== src/Contract/Lifecycle/Activate.antt =====
-- `ActivateContract` of services/contract/internal/service/service.go: what it does to the tables,
-- and for whom.
use aizorix_freelancer.Base.{
  ℕ, String, true, false, some, List, [], ◌∷◌, ◌++◌, ◌≡◌, refl, ◌==◌, arith, inl, inr, ap, sym, ◌∙◌,
  Option-cases, eq_iff, ◌≢◌, eq_refl,
}
use mathlib.Core.Path.{subst}
use aizorix_freelancer.Base.Table.{
  find, test_of_find-none, update, update-update, test-find, UniqueBy, update_by_key, find_by_key,
  find_key-update,
}
use aizorix_freelancer.Base.Tx.{ok, err, Result-cases}
use aizorix_freelancer.Contract.Tables.{
  Contract, ContractStatus, pending_funding, active, paused, completed, cancelled, disputed, Db,
  same_status, invalid_state,
}
use aizorix_freelancer.Contract.Store.{has_id, is_in, set_status, set_started}
use aizorix_freelancer.Contract.Service.{activate_contract, transition_event}
use aizorix_freelancer.Contract.History.{changed, contract_key}
use aizorix_freelancer.Contract.Milestones.{unmoved}
use aizorix_freelancer.Contract.Refine.{Done, Done_of}

pub activate_contract-eq-ok :
    (now : ℕ) (id actor : String) (db db' : Db)
    → activate_contract now id actor db ≡ ok (tt, db')
    → (c : Contract) × (find (is_in id pending_funding) db.contracts ≡ some c)
      × (db'.contracts
          ≡ update
              (has_id id)
              (set_started now)
              (update (is_in id pending_funding) (set_status active) db.contracts))
      × (db'.contract_events
          ≡ db.contract_events
            ++ transition_event id (some pending_funding) active "activate" actor [] ∷ [])
      × (db'.milestones ≡ db.milestones)
unfolding activate_contract
activate_contract-eq-ok now id actor db db' h =
    elim (Option-cases (find (is_in id pending_funding) db.contracts)) [
      | inl n ↦ ground arith
      | inr (c, s) ↦
          elim (Option-cases (
            find (has_id id) (
              update (has_id id) (set_started now)
                (update (is_in id pending_funding) (set_status active) db.contracts)))) [
                  | inl n ↦ ground arith
                  | inr (d, t) ↦ (c, s, ground arith, ground arith, ground arith)
                ]
    ]

-- The row that the guarded update of the status finds.
is_in_parts :
    (id : String) (from : ContractStatus) (c : Contract)
    → is_in id from c ≡ true
    → (c.id ≡ id) × (same_status c.status from ≡ true)
is_in_parts id from c h = (ground (arith, eq_iff c.id id), ground arith)

is_pending_funding :
    (s : ContractStatus) → same_status s pending_funding ≡ true → s ≡ pending_funding
is_pending_funding pending_funding h = refl
is_pending_funding active h = ground arith
is_pending_funding paused h = ground arith
is_pending_funding completed h = ground arith
is_pending_funding cancelled h = ground arith
is_pending_funding disputed h = ground arith

pub found_of_is_in :
    (id : String) (c : Contract) (cs : List Contract)
    → UniqueBy contract_key cs
    → find (is_in id pending_funding) cs ≡ some c
    → (c.id ≡ id) × (c.status ≡ pending_funding) × (find (has_id c.id) cs ≡ some c)
found_of_is_in id c cs u s =
    let parts = is_in_parts id pending_funding c (test-find (is_in id pending_funding) c cs s) in
    (
      parts.0,
      is_pending_funding c.status parts.1,
      find_by_key contract_key (is_in id pending_funding) c cs u s,
    )

abbrev pub started : ℕ → Contract → Contract
started now x = set_started now (set_status active x)

two_updates :
    (now : ℕ) (id : String) (c : Contract) (cs : List Contract)
    → UniqueBy contract_key cs
    → find (is_in id pending_funding) cs ≡ some c
    → c.id ≡ id
    → update
        (has_id id)
        (set_started now)
        (update (is_in id pending_funding) (set_status active) cs)
      ≡ update (has_id c.id) (started now) cs
two_updates now id c cs u s same =
    rw (update_by_key contract_key (is_in id pending_funding) (set_status active) c cs u s, ← same)
      (update-update (has_id c.id) (set_status active) (set_started now) cs (λ x. refl))

pub activate_contract-Done :
    (now : ℕ) (id actor : String) (db db' : Db)
    → UniqueBy contract_key db.contracts
    → activate_contract now id actor db ≡ ok (tt, db')
    → Done db db'
activate_contract-Done now id actor db db' u h =
    let (c, s, cs, evs, ms) = activate_contract-eq-ok now id actor db db' h in
    let (same, status, row) = found_of_is_in id c db.contracts u s in
    Done_of db db'
      (changed c (started now)
        (transition_event id (some pending_funding) active "activate" actor []) row (λ x. refl)
        (sym same) (ap some (sym status)) refl (λ q. ground (arith, q)))
      unmoved (cs ∙ two_updates now id c db.contracts u s same) evs ms

-- An activation leaves the contract with a status that cannot be activated.
pub activate_contract-left :
    (now : ℕ) (id actor : String) (db db' : Db)
    → UniqueBy contract_key db.contracts
    → activate_contract now id actor db ≡ ok (tt, db')
    → (y : Contract) × (find (has_id id) db'.contracts ≡ some y) × (y.status ≢ pending_funding)
activate_contract-left now id actor db db' u h =
    let (c, s, cs, evs, ms) = activate_contract-eq-ok now id actor db db' h in
    let (same, status, row) = found_of_is_in id c db.contracts u s in
    let cs' = cs ∙ two_updates now id c db.contracts u s same in
    (
      started now c,
      ap (find (has_id id)) cs'
          ∙ find_key-update contract_key c.id id (started now) c db.contracts (λ x. refl) row
          ∙ rw (same, eq_refl id) refl,
      λ q. ground (arith, q),
    )

-- A contract in 'pending_funding' is one that the guarded update finds.
is_in_of_pending :
    (id : String) (c : Contract) (cs : List Contract)
    → find (has_id id) cs ≡ some c
    → c.status ≡ pending_funding
    → (d : Contract) × (find (is_in id pending_funding) cs ≡ some d)
is_in_of_pending id c cs s p = elim (Option-cases (find (is_in id pending_funding) cs)) [
  | inr (d, t) ↦ (d, t)
  | inl n ↦
      let missed : is_in id pending_funding c ≡ false =
        test_of_find-none (is_in id pending_funding) (has_id id) c cs n s in
      let key : (c.id == id) ≡ true = test-find (has_id id) c cs s in
      let status : same_status c.status pending_funding ≡ true = rw p refl in
      absurd (ground (arith, missed, key, status))
]

activate_contract_runs :
    (now : ℕ) (id actor : String) (db : Db) (d y : Contract)
    → find (is_in id pending_funding) db.contracts ≡ some d
    → find (has_id id) (
        update
          (has_id id)
          (set_started now)
          (update (is_in id pending_funding) (set_status active) db.contracts))
      ≡ some y
    → (db' : Db) × (activate_contract now id actor db ≡ ok (tt, db'))
unfolding activate_contract
activate_contract_runs now id actor db d y s t =
    elim (Result-cases (activate_contract now id actor db)) [
      | inl (e, f) ↦ ground arith
      | inr ((u, db'), f) ↦ (db', f)
    ]

-- Whoever the actor is, the activation of a contract in 'pending_funding' succeeds, where contract
-- ids are unique, and the contract is then 'active' and started at that time.
pub activate_contract_any_actor :
    (now : ℕ) (id actor : String) (db : Db) (c : Contract)
    → UniqueBy contract_key db.contracts
    → find (has_id id) db.contracts ≡ some c
    → c.status ≡ pending_funding
    → (db' : Db) × (activate_contract now id actor db ≡ ok (tt, db'))
      × (find (has_id id) db'.contracts ≡ some (started now c))
activate_contract_any_actor now id actor db c u s p =
    let (d, t) = is_in_of_pending id c db.contracts s p in
    let (same, status, row) = found_of_is_in id d db.contracts u t in
    let row' : find (has_id id) db.contracts ≡ some d =
      subst (λ k. find (has_id k) db.contracts ≡ some d) same row in
    let one : d ≡ c = ground arith in
    let after : find (has_id id) (
          update (has_id id) (set_started now)
            (update (is_in id pending_funding) (set_status active) db.contracts))
        ≡ some (started now d) =
      ap (find (has_id id)) (two_updates now id d db.contracts u t same)
      ∙ find_key-update contract_key d.id id (started now) d db.contracts (λ x. refl) row
      ∙ rw (same, eq_refl id) refl in
    let (db', run) = activate_contract_runs now id actor db d (started now d) t after in
    let (e, f, cs, evs, ms) = activate_contract-eq-ok now id actor db db' run in
    (db', run, ap (find (has_id id)) cs ∙ after ∙ ap (λ x. some (started now x)) one)

-- A contract with another status is not activated.
pub activate_contract-refused :
    (now : ℕ) (id actor : String) (db : Db) (y : Contract)
    → UniqueBy contract_key db.contracts
    → find (has_id id) db.contracts ≡ some y
    → y.status ≢ pending_funding
    → activate_contract now id actor db ≡ err invalid_state
unfolding activate_contract
activate_contract-refused now id actor db y u s left =
    elim (Option-cases (find (is_in id pending_funding) db.contracts)) [
      | inl n ↦ ground arith
      | inr (c, f) ↦
          let (same, status, row) = found_of_is_in id c db.contracts u f in
          let row' : find (has_id id) db.contracts ≡ some c =
            subst (λ k. find (has_id k) db.contracts ≡ some c) same row in
          let one : y ≡ c = ground arith in absurd (left (ap (λ d. d.status) one ∙ status))
    ]
