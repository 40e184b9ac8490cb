-- ===== src/Contract/Promises/Sums.antt =====
-- The milestone total of `deriveContractTerms` in
-- services/contract/internal/service/service.go, against the sum without bounds.
use aizorix_freelancer.Base.{List, [], ◌∷◌, ◌≡◌, arith, ◌∙◌}
use aizorix_freelancer.Base.Int.{ℤ, pos, ◌+ℤ◌, ◌≤ℤ◌, int_laws, wrap_int64_in_range}
use aizorix_freelancer.Base.Table.{sum_by}
use aizorix_freelancer.Contract.Tables.{MilestoneInput}
use aizorix_freelancer.Contract.Terms.{sum_amounts}

abbrev pub total : List MilestoneInput → ℤ
total ms = sum_by (λ m. m.amount_cents) ms

-- No amount is negative.
abbrev pub AllNonNegative : List MilestoneInput → Type 0
AllNonNegative [] = Unit
AllNonNegative (m ∷ ms) = (pos 0 ≤ℤ m.amount_cents) × AllNonNegative ms

total-nonneg : (ms : List MilestoneInput) → AllNonNegative ms → pos 0 ≤ℤ total ms
total-nonneg [] h = omega arith
total-nonneg (m ∷ ms) h = let rest = total-nonneg ms h.1 in let first = h.0 in omega int_laws

assoc : (a b c : ℤ) → a +ℤ b +ℤ c ≡ a +ℤ (b +ℤ c)
assoc a b c = omega int_laws

zero_add : (a : ℤ) → pos 0 +ℤ a ≡ a
zero_add a = omega int_laws

sum_from :
    (sum : ℤ) (ms : List MilestoneInput)
    → pos 0 ≤ℤ sum
    → AllNonNegative ms
    → sum +ℤ total ms ≤ℤ pos 9223372036854775807
    → sum_amounts sum ms ≡ sum +ℤ total ms
unfolding sum_amounts
sum_from sum [] low h high = omega int_laws
sum_from sum (m ∷ ms) low h high =
    let rest = total-nonneg ms h.1 in
    let first = h.0 in
    let next : pos 0 ≤ℤ sum +ℤ m.amount_cents = omega int_laws in
    let top : sum +ℤ m.amount_cents ≤ℤ pos 9223372036854775807 = omega int_laws in
    let same = wrap_int64_in_range (sum +ℤ m.amount_cents) next top in
    let high' : sum +ℤ m.amount_cents +ℤ total ms ≤ℤ pos 9223372036854775807 = omega int_laws in
    rw same
      (sum_from (sum +ℤ m.amount_cents) ms next h.1 high' ∙ assoc sum m.amount_cents (total ms))

-- Where no amount is negative and the total is within int64, the loop's sum is the total.
pub sum_amounts_exact :
    (ms : List MilestoneInput)
    → AllNonNegative ms
    → total ms ≤ℤ pos 9223372036854775807
    → sum_amounts (pos 0) ms ≡ total ms
sum_amounts_exact ms h high =
    sum_from (pos 0) ms (omega arith) h (omega int_laws) ∙ zero_add (total ms)
