-- ===== src/Contract/Promises/Disputes.antt =====
-- Who may raise a dispute: `RaiseDispute` of services/contract/internal/service/service.go.
use aizorix_freelancer.Base.{
  String, Bool, true, false, Bool-cases, none, some, ◌≡◌, refl, ◌==◌, arith, inl, inr, ap, sym, ◌∙◌,
  text-cases, ◌≢◌, ◌⊎◌, [], ◌∷◌, ◌++◌,
}
use mathlib.Core.Path.{subst}
use aizorix_freelancer.Base.Table.{find, find-update_self}
use aizorix_freelancer.Base.Tx.{ok, err, Result-cases}
use aizorix_freelancer.Contract.Tables.{
  Contract, Db, Dispute, disputed, forbidden, constraint_violation,
}
use aizorix_freelancer.Contract.Store.{has_references, has_id, has_dispute_id, set_status}
use aizorix_freelancer.Contract.Service.{raise_dispute}
use aizorix_freelancer.Contract.Lifecycle.Dispute.{raise_dispute-eq-ok}

abbrev pub IsParty : String → Contract → Type 0
IsParty user c = (user ≡ c.client_id) ⊎ (user ≡ c.freelancer_id)

module _ (is_user : String → Bool) (x : Dispute) (db : Db) (c : Contract) where
  raise_dispute_forbidden :
      find (has_id x.contract_id) db.contracts ≡ some c
      → (c.client_id == x.raised_by) ≡ false
      → (c.freelancer_id == x.raised_by) ≡ false
      → raise_dispute is_user x db ≡ err forbidden
  unfolding raise_dispute
  raise_dispute_forbidden s t v = ground arith

  raise_dispute_refused :
      find (has_id x.contract_id) db.contracts ≡ some c
      → find (has_dispute_id x.id) db.disputes ≡ none
      → ((c.client_id == x.raised_by) ≡ true) ⊎ ((c.freelancer_id == x.raised_by) ≡ true)
      → has_references is_user x db ≡ false
      → raise_dispute is_user x db ≡ err constraint_violation
  unfolding raise_dispute
  raise_dispute_refused s n p r = ground arith

  raise_dispute_returns :
      find (has_id x.contract_id) db.contracts ≡ some c
      → find (has_dispute_id x.id) db.disputes ≡ none
      → ((c.client_id == x.raised_by) ≡ true) ⊎ ((c.freelancer_id == x.raised_by) ≡ true)
      → has_references is_user x db ≡ true
      → (db' : Db) × (raise_dispute is_user x db ≡ ok (x.id, db'))
        × (db'.disputes ≡ db.disputes ++ x ∷ [])
  unfolding raise_dispute
  raise_dispute_returns s n p r = elim (Result-cases (raise_dispute is_user x db)) [
    | inl (e, f) ↦ ground arith
    | inr ((id, db'), f) ↦
        let same : id ≡ x.id = ground arith in
        (db', subst (λ k. raise_dispute is_user x db ≡ ok (k, db')) same f, ground arith)
  ]

  -- The dispute is stored, and the contract is 'disputed'.
  abbrev pub IsRaised : Type 0
  IsRaised =
      (db' : Db) × (raise_dispute is_user x db ≡ ok (x.id, db'))
      × (db'.disputes ≡ db.disputes ++ x ∷ [])
      × (find (has_id x.contract_id) db'.contracts ≡ some (set_status disputed c))

  raise_dispute_runs :
      find (has_id x.contract_id) db.contracts ≡ some c
      → find (has_dispute_id x.id) db.disputes ≡ none
      → ((c.client_id == x.raised_by) ≡ true) ⊎ ((c.freelancer_id == x.raised_by) ≡ true)
      → has_references is_user x db ≡ true
      → IsRaised
  raise_dispute_runs s n p r =
      let (db', run, stored) = raise_dispute_returns s n p r in
      let (d, t, cs, evs, ms) = raise_dispute-eq-ok is_user x x.id db db' run in
      (
        db',
        run,
        stored,
        ap (find (has_id x.contract_id)) cs
            ∙ find-update_self (has_id x.contract_id) (set_status disputed) c db.contracts
                (λ y. refl) s,
      )

  raise_dispute_party :
      find (has_id x.contract_id) db.contracts ≡ some c
      → find (has_dispute_id x.id) db.disputes ≡ none
      → ((c.client_id == x.raised_by) ≡ true) ⊎ ((c.freelancer_id == x.raised_by) ≡ true)
      → ((has_references is_user x db ≡ true) × IsRaised)
        ⊎ ((has_references is_user x db ≡ false)
            × (raise_dispute is_user x db ≡ err constraint_violation))
  raise_dispute_party s n p = elim (Bool-cases (has_references is_user x db)) [
    | inl r ↦ inl (r, raise_dispute_runs s n p r)
    | inr r ↦ inr (r, raise_dispute_refused s n p r)
  ]

  -- With a dispute row id that is free: the contract's client and its freelancer raise a dispute in
  -- any status of the contract, which it leaves 'disputed', if the milestone it names, if any, and
  -- both users are in their tables, else a constraint refuses it; anyone else is forbidden to.
  pub raise_dispute_parties :
      find (has_id x.contract_id) db.contracts ≡ some c
      → find (has_dispute_id x.id) db.disputes ≡ none
      → (IsParty x.raised_by c
          × (((has_references is_user x db ≡ true) × IsRaised)
              ⊎ ((has_references is_user x db ≡ false)
                  × (raise_dispute is_user x db ≡ err constraint_violation))))
        ⊎ ((x.raised_by ≢ c.client_id)
            × (x.raised_by ≢ c.freelancer_id)
            × (raise_dispute is_user x db ≡ err forbidden))
  raise_dispute_parties s n = elim (text-cases c.client_id x.raised_by) [
    | inl (e, t) ↦ inl (inl (sym e), raise_dispute_party s n (inl t))
    | inr (e, t) ↦ elim (text-cases c.freelancer_id x.raised_by) [
      | inl (f, v) ↦ inl (inr (sym f), raise_dispute_party s n (inr v))
      | inr (f, v) ↦ inr ((λ q. e (sym q)), (λ q. f (sym q)), raise_dispute_forbidden s t v)
    ]
  ]
