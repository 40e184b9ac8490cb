-- ===== src/Contract/Promises/Proposals.antt =====
-- Where the terms of a contract come from: `CreateFromProposal` of
-- services/contract/internal/service/service.go.
use aizorix_freelancer.Base.{
  ℕ, String, true, false, Option, none, some, ◌≡◌, refl, ◌==◌, arith, inl, inr, ap, sym, ◌∙◌,
  Bool-cases, eq_iff, eq_refl, ◌≢◌, ◌⊎◌,
}
use aizorix_freelancer.Base.Int.{ℤ, pos, eqb_ℤ, eq_of_eqb_ℤ}
use aizorix_freelancer.Base.Table.{find, find-append}
use aizorix_freelancer.Base.Tx.{Result, ok, Result-cases}
use aizorix_freelancer.Contract.Tables.{Contract, Db, CreateInput, Proposal, LookupError}
use aizorix_freelancer.Contract.Terms.{
  sum_amounts, is_nil, price, override, default_currency, derive_contract_terms,
}
use aizorix_freelancer.Contract.Store.{has_id}
use aizorix_freelancer.Contract.Service.{contract_row, insert_terms, create_from_proposal}
use aizorix_freelancer.Contract.Lifecycle.Create.{insert_terms-eq-ok}

-- The terms that are derived from a proposal.
pub record IsDerived (c : CreateInput) (p : Proposal) (t : CreateInput) : Type 0 where
  pub client_owns_project : p.project_client_id ≡ c.client_id
  pub client : t.client_id ≡ c.client_id
  pub project : t.project_id ≡ p.project_id
  pub freelancer : t.freelancer_id ≡ p.freelancer_id
  pub two_parties : t.client_id ≢ t.freelancer_id
  pub fee : t.platform_fee_bps ≡ pos 1000
  pub bid_open : (p.status ≢ "withdrawn") × (p.status ≢ "declined")
  pub fixed_price :
      c.budget_type ≡ "fixed"
      → (t.total_amount_cents ≡ some p.bid_amount_cents)
        × (t.hourly_rate_cents ≡ none)
        × (sum_amounts (pos 0) t.milestones ≡ p.bid_amount_cents)
        × (is_nil t.milestones ≡ false)
  pub hourly_price :
      c.budget_type ≡ "hourly"
      → (t.hourly_rate_cents ≡ some p.bid_amount_cents) × (t.total_amount_cents ≡ none)

price-eq-ok :
    (c t : CreateInput) (bid : ℤ)
    → price c bid ≡ ok t
    → (t.client_id ≡ c.client_id)
      × (t.project_id ≡ c.project_id)
      × (t.freelancer_id ≡ c.freelancer_id)
      × (t.platform_fee_bps ≡ c.platform_fee_bps)
unfolding price
price-eq-ok c t bid h = (ground arith, ground arith, ground arith, ground arith)

price_fixed :
    (c t : CreateInput) (bid : ℤ)
    → price c bid ≡ ok t
    → c.budget_type ≡ "fixed"
    → (t.total_amount_cents ≡ some bid)
      × (t.hourly_rate_cents ≡ none)
      × (sum_amounts (pos 0) t.milestones ≡ bid)
      × (is_nil t.milestones ≡ false)
unfolding price
price_fixed c t bid h e =
    let fixed : (c.budget_type == "fixed") ≡ true = (eq_iff c.budget_type "fixed").1 e in
    elim (Bool-cases (is_nil c.milestones)) [
      | inl n ↦ ground arith
      | inr n ↦ elim (Bool-cases (eqb_ℤ (sum_amounts (pos 0) c.milestones) bid)) [
        | inr f ↦ ground arith
        | inl f ↦
            let same : record c { total_amount_cents = some bid; hourly_rate_cents = none } ≡ t =
              ground arith in
            rw (← same) (refl, refl, eq_of_eqb_ℤ _ _ f, n)
      ]
    ]

price_hourly :
    (c t : CreateInput) (bid : ℤ)
    → price c bid ≡ ok t
    → c.budget_type ≡ "hourly"
    → (t.hourly_rate_cents ≡ some bid) × (t.total_amount_cents ≡ none)
unfolding price
price_hourly c t bid h e =
    let hourly : (c.budget_type == "hourly") ≡ true = (eq_iff c.budget_type "hourly").1 e in
    let not_fixed : (c.budget_type == "fixed") ≡ false = rw e refl in (ground arith, ground arith)

derive_contract_terms-eq-ok :
    (c t : CreateInput) (p : Proposal)
    → derive_contract_terms c p ≡ ok t
    → ((p.project_client_id == c.client_id) ≡ true)
      × ((p.status == "withdrawn") ≡ false)
      × ((p.status == "declined") ≡ false)
      × ((c.client_id == p.freelancer_id) ≡ false)
      × (price (default_currency (override c p)) p.bid_amount_cents ≡ ok t)
unfolding derive_contract_terms
derive_contract_terms-eq-ok c t p h =
    (ground arith, ground arith, ground arith, ground arith, ground arith)

differ : (s t : String) → (s == t) ≡ false → s ≢ t
differ s t f e = ground (arith, f, (eq_iff s t).1 e)

-- When terms are derived, the client owns the proposal's project, the project, the freelancer and
-- the price are the proposal's, the fee is 10%, and the int64 sum of fixed-price milestones, with
-- its wrap-around, is the bid.
pub derive_contract_terms-IsDerived :
    (c t : CreateInput) (p : Proposal) → derive_contract_terms c p ≡ ok t → IsDerived c p t
derive_contract_terms-IsDerived c t p h =
    let (owns, w, d, two, priced) = derive_contract_terms-eq-ok c t p h in
    let (client, project, freelancer, fee) =
      price-eq-ok (default_currency (override c p)) t p.bid_amount_cents priced in
    record {
      client_owns_project = (eq_iff p.project_client_id c.client_id).0 owns;
      client = client;
      project = project;
      freelancer = freelancer;
      two_parties = λ e. differ c.client_id p.freelancer_id two (sym client ∙ e ∙ freelancer);
      fee = fee;
      bid_open = (differ p.status "withdrawn" w, differ p.status "declined" d);
      fixed_price =
          λ e. price_fixed (default_currency (override c p)) t p.bid_amount_cents priced e;
      hourly_price =
          λ e. price_hourly (default_currency (override c p)) t p.bid_amount_cents priced e;
    }

-- The request's project, freelancer, fee, total and rate have no influence on the terms of a
-- contract whose budget type is 'fixed' or 'hourly'.
derive_contract_terms_ignores :
    (c : CreateInput) (p : Proposal) (project freelancer : String) (fee : ℤ) (total rate : Option ℤ)
    → (c.budget_type ≡ "fixed") ⊎ (c.budget_type ≡ "hourly")
    → derive_contract_terms
        (record c {
          project_id = project;
          freelancer_id = freelancer;
          platform_fee_bps = fee;
          total_amount_cents = total;
          hourly_rate_cents = rate;
        })
        p
      ≡ derive_contract_terms c p
unfolding derive_contract_terms price
derive_contract_terms_ignores c p project freelancer fee total rate (inl e) = rw e refl
derive_contract_terms_ignores c p project freelancer fee total rate (inr e) = rw e refl

create_from_proposal-eq-ok :
    (lookup : String → Result LookupError Proposal) (draw : ℕ → String) (new_id : String)
    (c : CreateInput) (db db' : Db) (row : Contract)
    → create_from_proposal lookup draw new_id c db ≡ ok (row, db')
    → (p : Proposal) × (t : CreateInput) × (lookup c.proposal_id ≡ ok p)
      × (derive_contract_terms c p ≡ ok t)
      × (insert_terms draw new_id t db ≡ ok (row, db'))
unfolding create_from_proposal
create_from_proposal-eq-ok lookup draw new_id c db db' row h =
    elim (Bool-cases (c.proposal_id == "")) [
      | inl p ↦ ground arith
      | inr p ↦ elim (Bool-cases (c.client_id == "")) [
        | inl q ↦ ground arith
        | inr q ↦ elim (Result-cases (lookup c.proposal_id)) [
          | inl (LookupError.proposal_missing, f) ↦ ground arith
          | inl (LookupError.unreachable, f) ↦ ground arith
          | inr (answer, f) ↦ elim (Result-cases (derive_contract_terms c answer)) [
            | inl (e, g) ↦ ground arith
            | inr (terms, g) ↦ (answer, terms, f, g, ground arith)
          ]
        ]
      ]
    ]

-- A contract that is created has the terms derived from the proposal that the proposal service
-- returned for the request, and is found by its new id, which was free.
pub create_from_proposal_terms :
    (lookup : String → Result LookupError Proposal) (draw : ℕ → String) (new_id : String)
    (c : CreateInput) (db db' : Db) (row : Contract)
    → create_from_proposal lookup draw new_id c db ≡ ok (row, db')
    → (p : Proposal) × (t : CreateInput) × (lookup c.proposal_id ≡ ok p)
      × IsDerived c p t
      × (row ≡ contract_row new_id t)
      × (find (has_id new_id) db.contracts ≡ none)
      × (find (has_id new_id) db'.contracts ≡ some row)
create_from_proposal_terms lookup draw new_id c db db' row h =
    let (p, t, answer, terms, run) = create_from_proposal-eq-ok lookup draw new_id c db db' row h in
    let (fresh, same, cs, evs, ms) = insert_terms-eq-ok draw new_id t db db' row run in
    (
      p,
      t,
      answer,
      derive_contract_terms-IsDerived c t p terms,
      same,
      fresh,
      ap (find (has_id new_id)) cs
          ∙ find-append (has_id new_id) (contract_row new_id t) db.contracts fresh
          ∙ rw (eq_refl new_id) (ap some (sym same)),
    )
