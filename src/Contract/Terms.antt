-- ===== src/Contract/Terms.antt =====
-- `deriveContractTerms` of services/contract/internal/service/service.go: the terms of a contract
-- come from the proposal, not from the request.
use aizorix_freelancer.Base.{
  Bool, true, false, none, some, List, [], ◌∷◌, ◌==◌, ◌||◌, not, if◌then◌else◌,
}
use aizorix_freelancer.Base.Int.{ℤ, pos, ◌+ℤ◌, eqb_ℤ, wrap_int64}
use aizorix_freelancer.Base.Tx.{Result, ok, err}
use aizorix_freelancer.Contract.Tables.{
  MilestoneInput, CreateInput, Proposal, Error, forbidden, proposal_not_selected, invalid_parties,
  no_milestones, proposal_mismatch,
}

-- The loop over the milestones, from a sum so far; an int64 wraps around.
unfoldable pub sum_amounts : ℤ → List MilestoneInput → ℤ
sum_amounts sum [] = sum
sum_amounts sum (m ∷ ms) = sum_amounts (wrap_int64 (sum +ℤ m.amount_cents)) ms

abbrev pub is_nil : List MilestoneInput → Bool
is_nil [] = true
is_nil (_ ∷ _) = false

-- The `switch` on the budget type.
unfoldable pub price : CreateInput → ℤ → Result Error CreateInput
price c bid =
    if c.budget_type == "fixed"
    then (if is_nil c.milestones
        then err no_milestones
        else if not (eqb_ℤ (sum_amounts (pos 0) c.milestones) bid)
        then err proposal_mismatch
        else ok (record c { total_amount_cents = some bid; hourly_rate_cents = none }))
    else if c.budget_type == "hourly"
    then ok (record c { hourly_rate_cents = some bid; total_amount_cents = none })
    else ok c

-- The overrides of the request's terms.
abbrev pub override : CreateInput → Proposal → CreateInput
override c p = record c {
  project_id = p.project_id;
  freelancer_id = p.freelancer_id;
  platform_fee_bps = pos 1000;
  currency = if p.currency == "" then c.currency else p.currency;
}

abbrev pub default_currency : CreateInput → CreateInput
default_currency c = record c { currency = if c.currency == "" then "USD" else c.currency }

unfoldable pub derive_contract_terms : CreateInput → Proposal → Result Error CreateInput
unfolding price
derive_contract_terms c p =
    if p.project_client_id == "" || not (p.project_client_id == c.client_id)
    then err forbidden
    else if p.status == "withdrawn" || p.status == "declined"
    then err proposal_not_selected
    else if c.client_id == p.freelancer_id || p.freelancer_id == ""
    then err invalid_parties
    else price (default_currency (override c p)) p.bid_amount_cents
