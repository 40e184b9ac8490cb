-- ===== src/Contract/Promises/Views.antt =====
-- Who may read a contract, and what is read: `GetContract` of
-- services/contract/internal/service/service.go.
use aizorix_freelancer.Base.{
  ℕ, ◌+◌, ◌&&◌, ◌∙◌, Bool, if◌then◌else◌, String, true, false, some, List, [], ◌∷◌, ◌≡◌, refl, ◌==◌,
  arith, inl, inr, ◌⊎◌, ◌≢◌, sym, Bool-cases, text-cases,
}
use aizorix_freelancer.Base.Int.{ℤ, ◌≤ℤ◌, leb_ℤ, le_of_leb_ℤ}
use aizorix_freelancer.Base.Table.{find}
use aizorix_freelancer.Base.Tx.{ok, err}
use aizorix_freelancer.Contract.Tables.{Contract, Milestone, ContractView, Db, forbidden}
use aizorix_freelancer.Contract.Store.{has_id, insert_by_seq, by_seq, rows}
use aizorix_freelancer.Contract.Service.{get_contract_view}

-- No milestone of a list stands before a number.
abbrev pub IsBelow : ℤ → List Milestone → Type 0
IsBelow s [] = Unit
IsBelow s (m ∷ ms) = (s ≤ℤ m.seq) × IsBelow s ms

abbrev pub IsSorted : List Milestone → Type 0
IsSorted [] = Unit
IsSorted (m ∷ ms) = IsBelow m.seq ms × IsSorted ms

IsBelow-trans : (s t : ℤ) (ms : List Milestone) → s ≤ℤ t → IsBelow t ms → IsBelow s ms
IsBelow-trans s t [] h b = tt
IsBelow-trans s t (m ∷ ms) h b = let first = b.0 in (omega arith, IsBelow-trans s t ms h b.1)

insert_by_seq-IsBelow :
    (s : ℤ) (m : Milestone) (ms : List Milestone)
    → s ≤ℤ m.seq
    → IsBelow s ms
    → IsBelow s (insert_by_seq m ms)
unfolding insert_by_seq
insert_by_seq-IsBelow s m [] h b = (h, tt)
insert_by_seq-IsBelow s m (x ∷ xs) h b = elim (Bool-cases (leb_ℤ m.seq x.seq)) [
  | inl e ↦ rw e (h, b)
  | inr e ↦ rw e (b.0, insert_by_seq-IsBelow s m xs h b.1)
]

above : (a b : ℤ) → leb_ℤ a b ≡ false → b ≤ℤ a
above a b h = ground arith

insert_by_seq-IsSorted :
    (m : Milestone) (ms : List Milestone) → IsSorted ms → IsSorted (insert_by_seq m ms)
unfolding insert_by_seq
insert_by_seq-IsSorted m [] h = (tt, tt)
insert_by_seq-IsSorted m (x ∷ xs) h = elim (Bool-cases (leb_ℤ m.seq x.seq)) [
  | inl e ↦
      let low = le_of_leb_ℤ m.seq x.seq e in rw e ((low, IsBelow-trans m.seq x.seq xs low h.0), h)
  | inr e ↦
      rw e (
        insert_by_seq-IsBelow x.seq m xs (above m.seq x.seq e) h.0,
        insert_by_seq-IsSorted m xs h.1,
      )
]

by_seq-IsSorted : (ms : List Milestone) → IsSorted (by_seq ms)
unfolding by_seq
by_seq-IsSorted [] = tt
by_seq-IsSorted (m ∷ ms) = insert_by_seq-IsSorted m (by_seq ms) (by_seq-IsSorted ms)

-- How many milestones of a list pass a test.
abbrev pub count_where : (Milestone → Bool) → List Milestone → ℕ
count_where test [] = 0
count_where test (m ∷ ms) = (if test m then 1 else 0) + count_where test ms

-- The milestones of a contract, each as often as it is stored, in the order of the sequence numbers.
abbrev pub IsListing : String → List Milestone → List Milestone → Type 0
IsListing id stored ms =
    IsSorted ms
    × ((test : Milestone → Bool)
        → count_where test ms ≡ count_where (λ m. m.contract_id == id && test m) stored)

count_where-insert_by_seq :
    (test : Milestone → Bool) (m : Milestone) (ms : List Milestone)
    → count_where test (insert_by_seq m ms) ≡ count_where test (m ∷ ms)
unfolding insert_by_seq
count_where-insert_by_seq test m [] = refl
count_where-insert_by_seq test m (x ∷ xs) =
    let rest = count_where-insert_by_seq test m xs in
    elim (Bool-cases (leb_ℤ m.seq x.seq)) [ inl e ↦ rw e refl | inr e ↦ rw e (omega (arith, rest)) ]

count_where-by_seq :
    (test : Milestone → Bool) (ms : List Milestone)
    → count_where test (by_seq ms) ≡ count_where test ms
unfolding by_seq
count_where-by_seq test [] = refl
count_where-by_seq test (m ∷ ms) =
    let rest = count_where-by_seq test ms in
    let put = count_where-insert_by_seq test m (by_seq ms) in omega (arith, put, rest)

count_where-rows :
    (test other : Milestone → Bool) (ms : List Milestone)
    → count_where test (rows other ms) ≡ count_where (λ m. other m && test m) ms
count_where-rows test other [] = refl
count_where-rows test other (m ∷ ms) =
    let rest = count_where-rows test other ms in
    elim (Bool-cases (other m)) [
      | inl e ↦ rw e (omega (arith, rest))
      | inr e ↦ rw e (omega (arith, rest))
    ]

by_seq-IsListing :
    (id : String) (ms : List Milestone)
    → IsListing id ms (by_seq (rows (λ m. m.contract_id == id) ms))
by_seq-IsListing id ms = (
  by_seq-IsSorted _,
  λ test. count_where-by_seq test _ ∙ count_where-rows test (λ m. m.contract_id == id) ms,
)

abbrev view_of : String → String → Db → Contract → ContractView
view_of id user db c = record {
  contract = c;
  milestones = by_seq (rows (λ m. m.contract_id == id) db.milestones);
}

get_contract_view_runs :
    (id user : String) (db : Db) (c : Contract)
    → find (has_id id) db.contracts ≡ some c
    → ((c.client_id == user) ≡ true) ⊎ ((c.freelancer_id == user) ≡ true)
    → get_contract_view id user db ≡ ok (view_of id user db c, db)
unfolding get_contract_view
get_contract_view_runs id user db c s p = ground arith

get_contract_view_forbidden :
    (id user : String) (db : Db) (c : Contract)
    → find (has_id id) db.contracts ≡ some c
    → (c.client_id == user) ≡ false
    → (c.freelancer_id == user) ≡ false
    → get_contract_view id user db ≡ err forbidden
unfolding get_contract_view
get_contract_view_forbidden id user db c s t v = ground arith

-- A contract that there is can be read by its client and its freelancer, who see it with exactly its
-- own stored milestones, in the order of their sequence numbers; anyone else is forbidden to.
pub get_contract_view_parties :
    (id user : String) (db : Db) (c : Contract)
    → find (has_id id) db.contracts ≡ some c
    → (((user ≡ c.client_id) ⊎ (user ≡ c.freelancer_id))
        × ((v : ContractView) × (get_contract_view id user db ≡ ok (v, db))
            × (v.contract ≡ c)
            × IsListing id db.milestones v.milestones))
      ⊎ ((user ≢ c.client_id)
          × (user ≢ c.freelancer_id)
          × (get_contract_view id user db ≡ err forbidden))
get_contract_view_parties id user db c s = elim (text-cases c.client_id user) [
  | inl (e, t) ↦ inl (
    inl (sym e),
    (
      view_of id user db c,
      get_contract_view_runs id user db c s (inl t),
      refl,
      by_seq-IsListing id db.milestones,
    ),
  )
  | inr (e, t) ↦ elim (text-cases c.freelancer_id user) [
    | inl (f, v) ↦ inl (
      inr (sym f),
      (
        view_of id user db c,
        get_contract_view_runs id user db c s (inr v),
        refl,
        by_seq-IsListing id db.milestones,
      ),
    )
    | inr (f, v) ↦
        inr ((λ q. e (sym q)), (λ q. f (sym q)), get_contract_view_forbidden id user db c s t v)
  ]
]
