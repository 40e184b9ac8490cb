-- ===== src/Contract/Lifecycle/Create.antt =====
-- `CreateFromProposal` of services/contract/internal/service/service.go: what it does to the tables.
use aizorix_freelancer.Base.{
  ℕ, suc, String, none, List, [], ◌∷◌, ◌++◌, ◌≡◌, refl, ◌==◌, arith, inl, inr, ap, sym, ◌∙◌,
  if◌then◌else◌, Option-cases, Bool-cases,
}
use mathlib.Core.Path.{subst}
use aizorix_freelancer.Base.Table.{find}
use aizorix_freelancer.Base.Tx.{Result, ok, Result-cases}
use aizorix_freelancer.Contract.Tables.{
  Contract, pending_funding, MilestoneInput, ContractEvent, Db, CreateInput, Proposal, LookupError,
  Error,
}
use aizorix_freelancer.Contract.Terms.{derive_contract_terms}
use aizorix_freelancer.Contract.Store.{
  has_id, new_milestone, insert_contract, insert_hourly_contract, insert_milestone,
  insert_contract_event,
}
use aizorix_freelancer.Contract.Service.{
  contract_row, insert_milestones, insert_terms, create_from_proposal, transition_event, resolve,
}
use aizorix_freelancer.Contract.History.{created}
use aizorix_freelancer.Contract.Milestones.{added, Moves, unmoved, move, Moves-trans}
use aizorix_freelancer.Contract.Refine.{Done, Done_of}

-- Row ids, the sequence numbers and the amounts are the database's to check.
insert_milestone-eq-ok :
    (new_id id : String) (m : MilestoneInput) (db db' : Db) (u : Unit {0})
    → insert_milestone new_id id m db ≡ ok (u, db')
    → db' ≡ record db { milestones = db.milestones ++ new_milestone new_id id m ∷ [] }
unfolding insert_milestone
insert_milestone-eq-ok new_id id m db db' u h = ground arith

pub insert_milestones-eq-ok :
    (draw : ℕ → String) (n : ℕ) (id : String) (ms : List MilestoneInput) (db db' : Db)
    (u : Unit {0})
    → insert_milestones draw n id ms db ≡ ok (u, db')
    → (db'.contracts ≡ db.contracts)
      × (db'.contract_events ≡ db.contract_events)
      × Moves db.milestones db'.milestones
unfolding insert_milestones
insert_milestones-eq-ok draw n id [] db db' u h =
    let same : db ≡ db' = ground arith in
    (
      ap (λ d. d.contracts) (sym same),
      ap (λ d. d.contract_events) (sym same),
      subst (λ d. Moves db.milestones d.milestones) same unmoved,
    )
insert_milestones-eq-ok draw n id (m ∷ ms) db db' u h =
    elim (Result-cases (insert_milestone (draw n) id m db)) [
      | inl (e, f) ↦ ground arith
      | inr ((v, mid), f) ↦
          let rest : insert_milestones draw (suc n) id ms mid ≡ ok (u, db') = ground arith in
          let row = insert_milestone-eq-ok (draw n) id m db mid v f in
          let (cs, evs, moves) = insert_milestones-eq-ok draw (suc n) id ms mid db' u rest in
          (
            cs ∙ ap (λ d. d.contracts) row,
            evs ∙ ap (λ d. d.contract_events) row,
            Moves-trans
                (subst (λ d. Moves db.milestones d.milestones) (sym row)
                  (move unmoved (added (new_milestone (draw n) id m) refl (refl, refl, refl))))
                moves,
          )
    ]

insert_contract-eq-ok :
    (c : Contract) (db db' : Db) (u : Unit {0})
    → insert_contract c db ≡ ok (u, db')
    → (find (has_id c.id) db.contracts ≡ none)
      × (db' ≡ record db { contracts = db.contracts ++ c ∷ [] })
unfolding insert_contract
insert_contract-eq-ok c db db' u h = elim (Option-cases (find (has_id c.id) db.contracts)) [
  | inl n ↦ (n, ground arith)
  | inr (d, s) ↦ ground arith
]

insert_hourly_contract-eq-ok :
    (id : String) (db db' : Db) (u : Unit {0})
    → insert_hourly_contract id db ≡ ok (u, db')
    → (db'.contracts ≡ db.contracts)
      × (db'.contract_events ≡ db.contract_events)
      × (db'.milestones ≡ db.milestones)
unfolding insert_hourly_contract
insert_hourly_contract-eq-ok id db db' u h = (ground arith, ground arith, ground arith)

-- The rows under a new contract: an hourly row, or its milestones.
abbrev pub insert_details : (ℕ → String) → String → CreateInput → Db → Result Error (Unit {0} × Db)
insert_details draw new_id c =
    if c.budget_type == "hourly"
    then insert_hourly_contract new_id
    else insert_milestones draw 0 new_id c.milestones

insert_details-eq-ok :
    (draw : ℕ → String) (new_id : String) (c : CreateInput) (db db' : Db) (u : Unit {0})
    → insert_details draw new_id c db ≡ ok (u, db')
    → (db'.contracts ≡ db.contracts)
      × (db'.contract_events ≡ db.contract_events)
      × Moves db.milestones db'.milestones
insert_details-eq-ok draw new_id c db db' u h = elim (Bool-cases (c.budget_type == "hourly")) [
  | inl hourly ↦
      let h' : insert_hourly_contract new_id db ≡ ok (u, db') = ground arith in
      let (cs, evs, ms) = insert_hourly_contract-eq-ok new_id db db' u h' in
      (cs, evs, subst (λ x. Moves db.milestones x) (sym ms) unmoved)
  | inr fixed ↦
      let h' : insert_milestones draw 0 new_id c.milestones db ≡ ok (u, db') = ground arith in
      insert_milestones-eq-ok draw 0 new_id c.milestones db db' u h'
]

abbrev created_event : String → CreateInput → ContractEvent
created_event new_id c = transition_event new_id none pending_funding "create" c.client_id []

pub insert_terms-eq-ok :
    (draw : ℕ → String) (new_id : String) (c : CreateInput) (db db' : Db) (row : Contract)
    → insert_terms draw new_id c db ≡ ok (row, db')
    → (find (has_id new_id) db.contracts ≡ none)
      × (row ≡ contract_row new_id c)
      × (db'.contracts ≡ db.contracts ++ contract_row new_id c ∷ [])
      × (db'.contract_events ≡ db.contract_events ++ created_event new_id c ∷ [])
      × Moves db.milestones db'.milestones
unfolding insert_terms insert_contract_event
insert_terms-eq-ok draw new_id c db db' row h =
    elim (Result-cases (insert_contract (contract_row new_id c) db)) [
      | inl (e, f) ↦ ground arith
      | inr ((u, a), f) ↦ elim (Result-cases (insert_details draw new_id c a)) [
        | inl (e, g) ↦ ground arith
        | inr ((v, b), g) ↦
            let (fresh, first) = insert_contract-eq-ok (contract_row new_id c) db a u f in
            let (cs, evs, ms) = insert_details-eq-ok draw new_id c a b v g in
            let ev = created_event new_id c in
            let last : db' ≡ record b { contract_events = b.contract_events ++ ev ∷ [] } =
              ground arith in
            (
              fresh,
              ground arith,
              ap (λ d. d.contracts) last ∙ cs ∙ ap (λ d. d.contracts) first,
              ap (λ d. d.contract_events) last
                  ∙ ap (λ es. es ++ ev ∷ []) (evs ∙ ap (λ d. d.contract_events) first),
              subst (λ x. Moves db.milestones x) (sym (ap (λ d. d.milestones) last))
                  (subst (λ x. Moves x b.milestones) (ap (λ d. d.milestones) first) ms),
            )
      ]
    ]

insert_terms-Done :
    (draw : ℕ → String) (new_id : String) (c : CreateInput) (db db' : Db) (row : Contract)
    → insert_terms draw new_id c db ≡ ok (row, db')
    → Done db db'
insert_terms-Done draw new_id c db db' row h =
    let (fresh, same, cs, evs, ms) = insert_terms-eq-ok draw new_id c db db' row h in
    Done_of db db' (created (contract_row new_id c) (created_event new_id c) fresh refl refl refl)
      ms cs evs refl

pub create_from_proposal-Done :
    (lookup : String → Result LookupError Proposal) (draw : ℕ → String) (new_id : String)
    (c : CreateInput) (db db' : Db) (row : Contract)
    → create_from_proposal lookup draw new_id c db ≡ ok (row, db')
    → Done db db'
unfolding create_from_proposal
create_from_proposal-Done lookup draw new_id c db db' row h =
    elim (Bool-cases (c.proposal_id == "")) [
      | inl p ↦ ground arith
      | inr p ↦ elim (Bool-cases (c.client_id == "")) [
        | inl q ↦ ground arith
        | inr q ↦ elim (Result-cases (resolve (lookup c.proposal_id))) [
          | inl (e, f) ↦ ground arith
          | inr (answer, f) ↦ elim (Result-cases (derive_contract_terms c answer)) [
            | inl (e, g) ↦ ground arith
            | inr (terms, g) ↦
                let h' : insert_terms draw new_id terms db ≡ ok (row, db') = ground arith in
                insert_terms-Done draw new_id terms db db' row h'
          ]
        ]
      ]
    ]
