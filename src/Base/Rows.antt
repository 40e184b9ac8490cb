-- ===== src/Base/Rows.antt =====
-- Properties of all rows of a table, sums of numbers over them, and updates of every row that passes.
use aizorix_freelancer.Base.Tests.{if◌then◌else◌, Bool-cases, is_some}
use aizorix_freelancer.Base.Table.{find, update, update_all, rows_by, has_key, UniqueBy}
use Prim.Native.Nat.{ℕ, ◌+◌}
use Prim.Native.String.{String}
use mathlib.Core.Path.{◌≡◌, refl, sym, subst}
use mathlib.Core.Logic.{inl, inr}
use mathlib.Core.Bool.{Bool, true}
use mathlib.Core.Option.{none, some}
use mathlib.Core.List.{List, [], ◌∷◌, ◌++◌}
use native.Mathlib.Omega.{arith}

-- A property of every row.
module _ {A : Type 0} (P : A → Type 0) where
  abbrev pub All : List A → Type 0
  All [] = Unit
  All (x ∷ xs) = P x × All xs

  pub All-append : (x : A) (xs : List A) → All xs → P x → All (xs ++ x ∷ [])
  All-append x [] a p = (p, tt)
  All-append x (y ∷ ys) a p = (a.0, All-append x ys a.1 p)

  pub All-find : (test : A → Bool) (x : A) (xs : List A) → All xs → find test xs ≡ some x → P x
  All-find test x [] a h = ground arith
  All-find test x (y ∷ ys) a h = elim (Bool-cases (test y)) [
    | inl e ↦ let same : y ≡ x = ground arith in subst P same a.0
    | inr e ↦ All-find test x ys a.1 (ground arith)
  ]

  pub All-update :
      (test : A → Bool) (f : A → A) (xs : List A)
      → ((x : A) → P x → P (f x))
      → All xs
      → All (update test f xs)
  All-update test f [] k a = tt
  All-update test f (x ∷ xs) k a = elim (Bool-cases (test x)) [
    | inl e ↦ rw e (k x a.0, a.1)
    | inr e ↦ rw e (a.0, All-update test f xs k a.1)
  ]

  pub All-update_all :
      (test : A → Bool) (f : A → A) (xs : List A)
      → ((x : A) → test x ≡ true → P x → P (f x))
      → All xs
      → All (update_all test f xs)
  All-update_all test f [] k a = tt
  All-update_all test f (x ∷ xs) k a = elim (Bool-cases (test x)) [
    | inl e ↦ rw e (k x e a.0, All-update_all test f xs k a.1)
    | inr e ↦ rw e (a.0, All-update_all test f xs k a.1)
  ]

pub All-map :
    {A : Type 0} (P Q : A → Type 0) (xs : List A) → ((x : A) → P x → Q x) → All P xs → All Q xs
All-map P Q [] k a = tt
All-map P Q (x ∷ xs) k a = (k x a.0, All-map P Q xs k a.1)

abbrev pub sum_ℕ {ℓ} : {A : Type ℓ} → (A → ℕ) → List A → ℕ
sum_ℕ v [] = 0
sum_ℕ v (x ∷ xs) = v x + sum_ℕ v xs

pub sum_ℕ-append {ℓ} :
    {A : Type ℓ} (v : A → ℕ) (x : A) (xs : List A) → sum_ℕ v (xs ++ x ∷ []) ≡ sum_ℕ v xs + v x
sum_ℕ-append v x [] = omega arith
sum_ℕ-append v x (y ∷ ys) = rw (sum_ℕ-append v x ys) (omega arith)

module _ {A : Type 0} (v : A → ℕ) where
  pub sum_ℕ-update :
      (test : A → Bool) (f : A → A) (a : A) (xs : List A)
      → find test xs ≡ some a
      → sum_ℕ v (update test f xs) + v a ≡ sum_ℕ v xs + v (f a)
  sum_ℕ-update test f a [] h = ground arith
  sum_ℕ-update test f a (x ∷ xs) h = elim (Bool-cases (test x)) [
    | inl e ↦ ground arith
    | inr e ↦ ground (arith, sum_ℕ-update test f a xs)
  ]

  pub sum_ℕ-update_all :
      (test : A → Bool) (f : A → A) (xs : List A)
      → ((x : A) → v (f x) ≡ v x)
      → sum_ℕ v (update_all test f xs) ≡ sum_ℕ v xs
  sum_ℕ-update_all test f [] keep = refl
  sum_ℕ-update_all test f (x ∷ xs) keep = elim (Bool-cases (test x)) [
    | inl e ↦ rw (e, keep x, sum_ℕ-update_all test f xs keep) refl
    | inr e ↦ rw (e, sum_ℕ-update_all test f xs keep) refl
  ]

  pub sum_ℕ-zero : (xs : List A) → All (λ x. v x ≡ 0) xs → sum_ℕ v xs ≡ 0
  sum_ℕ-zero [] a = refl
  sum_ℕ-zero (x ∷ xs) a = rw (a.0, sum_ℕ-zero xs a.1) refl

module _ {A : Type 0} (key : A → String) where
  find_key-none_updated_all :
      (test : A → Bool) (f : A → A) (k : String) (xs : List A)
      → ((x : A) → key (f x) ≡ key x)
      → find (has_key key k) xs ≡ none
      → find (has_key key k) (update_all test f xs) ≡ none
  find_key-none_updated_all test f k [] keep n = refl
  find_key-none_updated_all test f k (x ∷ xs) keep n =
      ground (arith, keep x, find_key-none_updated_all test f k xs keep)

  pub UniqueBy-update_all :
      (test : A → Bool) (f : A → A) (xs : List A)
      → ((x : A) → key (f x) ≡ key x)
      → UniqueBy key xs
      → UniqueBy key (update_all test f xs)
  UniqueBy-update_all test f [] keep u = tt
  UniqueBy-update_all test f (x ∷ xs) keep u = elim (Bool-cases (test x)) [
    | inl e ↦ rw e (
      rw (keep x) (find_key-none_updated_all test f (key x) xs keep u.0),
      UniqueBy-update_all test f xs keep u.1,
    )
    | inr e ↦ rw e (
      find_key-none_updated_all test f (key x) xs keep u.0,
      UniqueBy-update_all test f xs keep u.1,
    )
  ]

pub All-update_all_intro :
    {A : Type 0} (Q : A → Type 0) (test : A → Bool) (f : A → A) (xs : List A)
    → ((x : A) → Q (if test x then f x else x))
    → All Q (update_all test f xs)
All-update_all_intro Q test f [] k = tt
All-update_all_intro Q test f (x ∷ xs) k = (k x, All-update_all_intro Q test f xs k)

pub find-rows_by :
    {A : Type 0} (test other : A → Bool) (a : A) (xs : List A)
    → find test xs ≡ some a
    → other a ≡ true
    → is_some (find test (rows_by other xs)) ≡ true
find-rows_by test other a [] h k = ground arith
find-rows_by test other a (x ∷ xs) h k = elim (Bool-cases (test x)) [
  | inl t ↦ let same : x ≡ a = ground arith in rw (same, k) (rw (← same) (rw t refl))
  | inr t ↦ elim (Bool-cases (other x)) [
    | inl o ↦ rw (o, t) (find-rows_by test other a xs (ground arith) k)
    | inr o ↦ rw o (find-rows_by test other a xs (ground arith) k)
  ]
]

pub All-update_found :
    {A : Type 0} (P Q : A → Type 0) (test : A → Bool) (f : A → A) (a : A) (xs : List A)
    → find test xs ≡ some a
    → ((x : A) → P x → Q x)
    → Q (f a)
    → All P xs
    → All Q (update test f xs)
All-update_found P Q test f a [] h k q p = tt
All-update_found P Q test f a (x ∷ xs) h k q p = elim (Bool-cases (test x)) [
  | inl e ↦
      let same : x ≡ a = ground arith in
      rw e (subst (λ y. Q (f y)) (sym same) q, All-map P Q xs k p.1)
  | inr e ↦ rw e (k x p.0, All-update_found P Q test f a xs (ground arith) k q p.1)
]

pub All-rows_by :
    {A : Type 0} (P : A → Type 0) (test : A → Bool) (xs : List A)
    → All P xs
    → All P (rows_by test xs)
All-rows_by P test [] p = tt
All-rows_by P test (x ∷ xs) p = elim (Bool-cases (test x)) [
  | inl e ↦ rw e (p.0, All-rows_by P test xs p.1)
  | inr e ↦ rw e (All-rows_by P test xs p.1)
]

pub rows_by-append :
    {A : Type 0} (test : A → Bool) (xs ys : List A)
    → rows_by test (xs ++ ys) ≡ rows_by test xs ++ rows_by test ys
rows_by-append test [] ys = refl
rows_by-append test (x ∷ xs) ys = elim (Bool-cases (test x)) [
  | inl e ↦ rw (e, rows_by-append test xs ys) refl
  | inr e ↦ rw (e, rows_by-append test xs ys) refl
]
