-- ===== src/Base/Tx.antt =====
-- A database transaction: a function of the tables that fails, and so is rolled back, or returns a
-- value with the new tables. `transact` is `Begin` with the deferred `Rollback` and the `Commit`.
use mathlib.Core.Bool.{Bool, true, false}
use mathlib.Core.Option.{Option, none, some}
use mathlib.Core.Path.{◌≡◌, refl}
use mathlib.Core.Logic.{◌⊎◌, inl, inr}

pub data Result (E A : Type 0) : Type 0 where
  ok : A → Result E A
  err : E → Result E A

abbrev pub Tx : Type 0 → Type 0 → Type 0 → Type 0
Tx D E A = D → Result E (A × D)

module _ {D E : Type 0} where
  abbrev pub pure : {A : Type 0} → A → Tx D E A
  pure a d = ok (a, d)

  abbrev pub fail : {A : Type 0} → E → Tx D E A
  fail e _ = err e

  abbrev pub get_db : Tx D E D
  get_db d = ok (d, d)

  abbrev pub modify : (D → D) → Tx D E (Unit {0})
  modify f d = ok (tt, f d)

  -- `if c { return err }`
  abbrev pub fail_if : Bool → E → Tx D E (Unit {0})
  fail_if true e _ = err e
  fail_if false _ d = ok (tt, d)

  -- A row that a query finds, or the error for `pgx.ErrNoRows`.
  abbrev pub or_fail : {A : Type 0} → Option A → E → Tx D E A
  or_fail none e _ = err e
  or_fail (some a) _ d = ok (a, d)

  -- A call whose error the code looks at; a failed statement changes nothing.
  abbrev pub attempt : {A : Type 0} → Tx D E A → Tx D E (Result E A)
  attempt m d = elim (m d) [ ok (a, d') ↦ ok (ok a, d') | err e ↦ ok (err e, d) ]

infixl 5 ◌>>=◌ ◌>>◌
abbrev pub ◌>>=◌ : {D E A B : Type 0} → Tx D E A → (A → Tx D E B) → Tx D E B
◌>>=◌ m f d = elim (m d) [ ok (a, d') ↦ f a d' | err e ↦ err e ]

abbrev pub ◌>>◌ : {D E A B : Type 0} → Tx D E A → Tx D E B → Tx D E B
m >> k = m >>= λ _. k

-- What `transact` returns, from what the transaction's body did.
abbrev pub commit_or_rollback : {D E A : Type 0} → Result E (A × D) → D → Result E A × D
commit_or_rollback (ok (a, d')) _ = (ok a, d')
commit_or_rollback (err e) d = (err e, d)

abbrev pub transact : {D E A : Type 0} → Tx D E A → D → Result E A × D
transact m d = commit_or_rollback (m d) d

-- A transaction has failed and left the tables alone, or its body ran to the end.
pub transact-cases :
    {D E A : Type 0} (m : Tx D E A) (d : D)
    → ((e : E) × (m d ≡ err e) × (transact m d ≡ (err e, d)))
      ⊎ ((a : A) × (d' : D) × (m d ≡ ok (a, d')) × (transact m d ≡ (ok a, d')))
transact-cases {D} {E} {A} m d = go (m d) refl
  where
    go :
        (r : Result E (A × D))
        → m d ≡ r
        → ((e : E) × (m d ≡ err e) × (transact m d ≡ (err e, d)))
          ⊎ ((a : A) × (d' : D) × (m d ≡ ok (a, d')) × (transact m d ≡ (ok a, d')))
    go (ok (a, d')) h = inr (a, d', h, λ i. commit_or_rollback (h i) d)
    go (err e) h = inl (e, h, λ i. commit_or_rollback (h i) d)

-- To split on what a call returns and keep the equation.
pub Result-cases :
    {E A : Type 0} (r : Result E A) → ((e : E) × (r ≡ err e)) ⊎ ((a : A) × (r ≡ ok a))
Result-cases (ok a) = inr (a, refl)
Result-cases (err e) = inl (e, refl)

-- A property of the tables that a transaction's body keeps where it runs to the end.
pub transact-keeps :
    {D E A : Type 0} (P : D → Type 0) (m : Tx D E A) (d : D)
    → P d
    → ((a : A) (d' : D) → m d ≡ ok (a, d') → P d')
    → P (transact m d).1
transact-keeps {D} {E} {A} P m d p k = go (m d) refl
  where
    go : (r : Result E (A × D)) → m d ≡ r → P (commit_or_rollback r d).1
    go (ok (a, d')) h = k a d' h
    go (err e) h = p
