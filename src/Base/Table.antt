-- ===== src/Base/Table.antt =====
-- Tables as lists of rows in the order of insertion, with a key column.
use aizorix_freelancer.Base.Tests.{if◌then◌else◌, Bool-cases, text-cases}
use aizorix_freelancer.Base.Int.{ℤ, pos, ◌+ℤ◌, int_laws}
use Prim.Native.String.{String}
use mathlib.Core.Path.{◌≡◌, refl, ap, sym, ◌∙◌}
use mathlib.Core.Logic.{◌⊎◌, inl, inr}
use mathlib.Core.Bool.{Bool, true, false}
use mathlib.Core.Option.{Option, none, some}
use mathlib.Core.List.{List, [], ◌∷◌, ◌++◌}
use native.Mathlib.Omega.{arith}
use text.Mathlib.Text.{◌==◌}
use text.Mathlib.TextEquality.{eq_iff}
use text.Mathlib.TextPositions.{eq_refl}

module _ {A : Type 0} where
  -- `SELECT ... WHERE test ORDER BY created_at LIMIT 1`
  abbrev pub find : (A → Bool) → List A → Option A
  find test [] = none
  find test (x ∷ xs) = if test x then some x else find test xs

  -- `UPDATE ... WHERE test` for a test that one row passes at most, as one on a primary key does.
  abbrev pub update : (A → Bool) → (A → A) → List A → List A
  update test f [] = []
  update test f (x ∷ xs) = if test x then f x ∷ xs else x ∷ update test f xs

  -- `SELECT ... WHERE test`: the rows that pass, in order.
  abbrev pub rows_by : (A → Bool) → List A → List A
  rows_by test [] = []
  rows_by test (x ∷ xs) = if test x then x ∷ rows_by test xs else rows_by test xs

  -- `UPDATE ... WHERE test` of every row that passes.
  abbrev pub update_all : (A → Bool) → (A → A) → List A → List A
  update_all test f [] = []
  update_all test f (x ∷ xs) = (if test x then f x else x) ∷ update_all test f xs

  abbrev pub sum_by : (A → ℤ) → List A → ℤ
  sum_by v [] = pos 0
  sum_by v (x ∷ xs) = v x +ℤ sum_by v xs

  pub sum_by-update :
      (v : A → ℤ) (test : A → Bool) (f : A → A) (a : A) (xs : List A)
      → find test xs ≡ some a
      → sum_by v (update test f xs) +ℤ v a ≡ sum_by v xs +ℤ v (f a)
  sum_by-update v test f a [] h = ground arith
  sum_by-update v test f a (x ∷ xs) h = elim (Bool-cases (test x)) [
    | inl e ↦ grind int_laws
    | inr e ↦ grind (int_laws, sum_by-update v test f a xs)
  ]

  pub sum_by-append :
      (v : A → ℤ) (xs ys : List A) → sum_by v (xs ++ ys) ≡ sum_by v xs +ℤ sum_by v ys
  sum_by-append v [] ys = omega int_laws
  sum_by-append v (x ∷ xs) ys = rw (sum_by-append v xs ys) (omega int_laws)

  pub find-append :
      (test : A → Bool) (x : A) (xs : List A)
      → find test xs ≡ none
      → find test (xs ++ x ∷ []) ≡ (if test x then some x else none)
  find-append test x [] h = refl
  find-append test x (y ∷ ys) h = ground (arith, find-append test x ys)

  pub find-append_other :
      (test : A → Bool) (x : A) (xs : List A)
      → test x ≡ false
      → find test (xs ++ x ∷ []) ≡ find test xs
  find-append_other test x [] h = rw h refl
  find-append_other test x (y ∷ ys) h = ground (arith, find-append_other test x ys h)

  pub find-append_some :
      (test : A → Bool) (x a : A) (xs : List A)
      → find test xs ≡ some a
      → find test (xs ++ x ∷ []) ≡ some a
  find-append_some test x a [] h = ground arith
  find-append_some test x a (y ∷ ys) h = ground (arith, find-append_some test x a ys)

  -- What a query finds passes its test.
  pub test-find : (test : A → Bool) (a : A) (xs : List A) → find test xs ≡ some a → test a ≡ true
  test-find test a [] h = ground arith
  test-find test a (x ∷ xs) h = elim (Bool-cases (test x)) [
    | inl e ↦ ground arith
    | inr e ↦ ground (arith, test-find test a xs)
  ]

  -- The row that was updated, under a test that the update keeps.
  pub find-update_self :
      (test : A → Bool) (f : A → A) (a : A) (xs : List A)
      → ((x : A) → test (f x) ≡ test x)
      → find test xs ≡ some a
      → find test (update test f xs) ≡ some (f a)
  find-update_self test f a [] keep h = ground arith
  find-update_self test f a (x ∷ xs) keep h =
      ground (arith, keep x, find-update_self test f a xs keep)

  -- The same for a row that replaces it and passes the test.
  pub find-update_replaced :
      (test : A → Bool) (f : A → A) (a : A) (xs : List A)
      → test (f a) ≡ true
      → find test xs ≡ some a
      → find test (update test f xs) ≡ some (f a)
  find-update_replaced test f a [] t h = ground arith
  find-update_replaced test f a (x ∷ xs) t h = elim (Bool-cases (test x)) [
    | inl e ↦ let same : x ≡ a = ground arith in rw (e, same, t) refl
    | inr e ↦ rw (e, e) (find-update_replaced test f a xs t (ground arith))
  ]

  -- A query that no row tells apart from its update finds the same rows.
  pub find-update_other :
      (other test : A → Bool) (f : A → A) (xs : List A)
      → ((x : A) → test x ≡ true → other x ≡ false)
      → ((x : A) → test x ≡ true → other (f x) ≡ false)
      → find other (update test f xs) ≡ find other xs
  find-update_other other test f [] h k = refl
  find-update_other other test f (x ∷ xs) h k =
      ground (arith, h x, k x, find-update_other other test f xs h k)

  -- The same where every row that passes is updated.
  pub find-update_all :
      (other test : A → Bool) (f : A → A) (a : A) (xs : List A)
      → ((x : A) → other (f x) ≡ other x)
      → find other xs ≡ some a
      → find other (update_all test f xs) ≡ some (if test a then f a else a)
  find-update_all other test f a [] keep h = ground arith
  find-update_all other test f a (x ∷ xs) keep h =
      ground (arith, keep x, find-update_all other test f a xs keep)

  pub update_all_nowhere : (f : A → A) (xs : List A) → update_all (λ _. false) f xs ≡ xs
  update_all_nowhere f [] = refl
  update_all_nowhere f (x ∷ xs) = ap (λ r. x ∷ r) (update_all_nowhere f xs)

  -- A row that one query finds fails the test of a query that finds none.
  pub test_of_find-none :
      (other test : A → Bool) (a : A) (xs : List A)
      → find other xs ≡ none
      → find test xs ≡ some a
      → other a ≡ false
  test_of_find-none other test a [] n h = ground arith
  test_of_find-none other test a (x ∷ xs) n h = elim (Bool-cases (test x)) [
    | inl e ↦ ground arith
    | inr e ↦ ground (arith, test_of_find-none other test a xs)
  ]

  -- A narrower query finds nothing where a wider one finds nothing.
  pub find-none_narrower :
      (test wider : A → Bool) (xs : List A)
      → ((x : A) → test x ≡ true → wider x ≡ true)
      → find wider xs ≡ none
      → find test xs ≡ none
  find-none_narrower test wider [] h n = refl
  find-none_narrower test wider (x ∷ xs) h n =
      ground (arith, h x, find-none_narrower test wider xs h)

  -- Two updates of the same row are one.
  pub update-update :
      (test : A → Bool) (f g : A → A) (xs : List A)
      → ((x : A) → test (f x) ≡ test x)
      → update test g (update test f xs) ≡ update test (λ x. g (f x)) xs
  update-update test f g [] keep = refl
  update-update test f g (x ∷ xs) keep = elim (Bool-cases (test x)) [
    | inl t ↦ rw (t, keep x, t)
    | inr t ↦ rw (t, t) (ap (λ r. x ∷ r) (update-update test f g xs keep))
  ]

  -- An update that a query does not see changes at most the row that it finds.
  pub find-update_either :
      (other test : A → Bool) (f : A → A) (a : A) (xs : List A)
      → ((x : A) → other (f x) ≡ other x)
      → find other xs ≡ some a
      → (find other (update test f xs) ≡ some a) ⊎ (find other (update test f xs) ≡ some (f a))
  find-update_either other test f a [] keep h = inl h
  find-update_either other test f a (x ∷ xs) keep h = elim (Bool-cases (test x)) [
    | inl t ↦ elim (Bool-cases (other x)) [
      | inl o ↦
          let same : x ≡ a = ground arith in inr (rw (t, keep x, o) (ap (λ y. some (f y)) same))
      | inr o ↦ inl (rw (t, keep x, o) (ground arith))
    ]
    | inr t ↦ elim (Bool-cases (other x)) [
      | inl o ↦ inl (rw (t, o) (ground arith))
      | inr o ↦
          let h' : find other xs ≡ some a = ground arith in
          rw (t, o) (find-update_either other test f a xs keep h')
    ]
  ]

-- Rows with a primary key.
module _ {A : Type 0} (key : A → String) where
  abbrev pub has_key : String → A → Bool
  has_key k x = key x == k

  abbrev pub UniqueBy : List A → Type 0
  UniqueBy [] = Unit
  UniqueBy (x ∷ xs) = (find (has_key (key x)) xs ≡ none) × UniqueBy xs

  key_differs :
      (test : A → Bool) (x a : A) (xs : List A)
      → find (has_key (key x)) xs ≡ none
      → find test xs ≡ some a
      → (key x == key a) ≡ false
  key_differs test x a xs n h = ground (
    arith,
    test_of_find-none (has_key (key x)) test a xs n h,
    eq_iff (key x) (key a),
    eq_iff (key a) (key x),
  )

  -- A row that some query finds is found by its key.
  pub find_by_key :
      (test : A → Bool) (a : A) (xs : List A)
      → UniqueBy xs
      → find test xs ≡ some a
      → find (has_key (key a)) xs ≡ some a
  find_by_key test a [] u h = ground arith
  find_by_key test a (x ∷ xs) u h = elim (Bool-cases (test x)) [
    | inl t ↦ let same : x ≡ a = ground arith in rw (← same) (ground (arith, eq_refl (key x)))
    | inr f ↦
        let h' : find test xs ≡ some a = ground arith in
        rw (key_differs test x a xs u.0 h') (find_by_key test a xs u.1 h')
  ]

  -- So an update by the query is one by the key.
  pub update_by_key :
      (test : A → Bool) (f : A → A) (a : A) (xs : List A)
      → UniqueBy xs
      → find test xs ≡ some a
      → update test f xs ≡ update (has_key (key a)) f xs
  update_by_key test f a [] u h = refl
  update_by_key test f a (x ∷ xs) u h = elim (Bool-cases (test x)) [
    | inl t ↦ let same : x ≡ a = ground arith in rw t (rw (← same) (rw (eq_refl (key x)) refl))
    | inr t ↦
        let h' : find test xs ≡ some a = ground arith in
        rw (t, key_differs test x a xs u.0 h') (ap (λ r. x ∷ r) (update_by_key test f a xs u.1 h'))
  ]

  pub UniqueBy-append :
      (a : A) (xs : List A)
      → UniqueBy xs
      → find (has_key (key a)) xs ≡ none
      → UniqueBy (xs ++ a ∷ [])
  UniqueBy-append a [] u n = (refl, tt)
  UniqueBy-append a (x ∷ xs) u n =
      let differs : (key x == key a) ≡ false = ground arith in
      let rest : find (has_key (key a)) xs ≡ none = ground arith in
      (
        rw (find-append (has_key (key x)) a xs u.0)
            (ground (arith, eq_iff (key x) (key a), eq_iff (key a) (key x))),
        UniqueBy-append a xs u.1 rest,
      )

  find_key-none_updated :
      (test : A → Bool) (f : A → A) (k : String) (xs : List A)
      → ((x : A) → key (f x) ≡ key x)
      → find (has_key k) xs ≡ none
      → find (has_key k) (update test f xs) ≡ none
  find_key-none_updated test f k [] keep n = refl
  find_key-none_updated test f k (x ∷ xs) keep n =
      ground (arith, keep x, find_key-none_updated test f k xs keep)

  pub UniqueBy-update :
      (test : A → Bool) (f : A → A) (xs : List A)
      → ((x : A) → key (f x) ≡ key x)
      → UniqueBy xs
      → UniqueBy (update test f xs)
  UniqueBy-update test f [] keep u = tt
  UniqueBy-update test f (x ∷ xs) keep u = elim (Bool-cases (test x)) [
    | inl t ↦ rw t (rw (keep x) u.0, u.1)
    | inr t ↦
        rw t (find_key-none_updated test f (key x) xs keep u.0, UniqueBy-update test f xs keep u.1)
  ]

  -- The row of a key after an update of the row of another one.
  pub find_key-update :
      (k j : String) (f : A → A) (a : A) (xs : List A)
      → ((x : A) → key (f x) ≡ key x)
      → find (has_key k) xs ≡ some a
      → find (has_key j) (update (has_key k) f xs)
        ≡ (if k == j then some (f a) else find (has_key j) xs)
  find_key-update k j f a xs keep s = elim (text-cases k j) [
    | inl (same, t) ↦
        rw (t, ← same) (find-update_self (has_key k) f a xs (λ x. λ i. keep x i == k) s)
    | inr (ne, t) ↦
        let differs : (x : A) → has_key k x ≡ true → has_key j x ≡ false =
          λ x p. ground (arith, eq_iff (key x) k, eq_iff (key x) j) in
        rw t (
          find-update_other (has_key j) (has_key k) f xs differs (λ x p. rw (keep x) (differs x p)))
  ]

  -- A row that some query finds, after an update by its key that the query does not see.
  pub find-update_found :
      (test : A → Bool) (f : A → A) (a : A) (xs : List A)
      → ((x : A) → test (f x) ≡ test x)
      → UniqueBy xs
      → find test xs ≡ some a
      → find test (update (has_key (key a)) f xs) ≡ some (f a)
  find-update_found test f a xs keep u s =
      ap (find test) (sym (update_by_key test f a xs u s)) ∙ find-update_self test f a xs keep s
