-- ===== src/Timetracking/Slices.antt =====
-- `UpsertSlice` of services/timetracking/internal/store/store.go: batches that are sent again.
use aizorix_freelancer.Base.{
  ℕ, String, true, Option, none, some, List, [], ◌∷◌, ◌≡◌, refl, ◌==◌, ◌=ℕ=◌, ◌&&◌, arith, inl, inr,
  ap, sym, ◌∙◌, if◌then◌else◌, Bool-cases, eq_iff, ◌⊎◌,
}
use aizorix_freelancer.Base.Table.{find}
use aizorix_freelancer.Timetracking.Tables.{Slice}
use aizorix_freelancer.Timetracking.Store.{same_slice, overwrite, put_slice}

-- What one upsert makes of the row of a key.
abbrev pub merge : Slice → Option Slice → Slice
merge new none = new
merge new (some old) = overwrite new old

abbrev pub place : Slice → String → ℕ → Option Slice → Option Slice
place new s t o = if same_slice s t new then some (merge new o) else o

nat_of_test : (a b : ℕ) → a =ℕ= b ≡ true → a ≡ b
nat_of_test a b h = ground arith

parts_of_same :
    (s : String) (t : ℕ) (x : Slice)
    → same_slice s t x ≡ true
    → (x.session_id ≡ s) × (x.slice_start ≡ t)
parts_of_same s t x h = elim (Bool-cases (x.session_id == s)) [
  | inl e ↦ ((eq_iff x.session_id s).0 e, nat_of_test x.slice_start t (ground arith))
  | inr e ↦ ground arith
]

same_of_same :
    (s : String) (t : ℕ) (x y : Slice)
    → same_slice x.session_id x.slice_start y ≡ true
    → same_slice s t y ≡ same_slice s t x
same_of_same s t x y h =
    let (a, b) = parts_of_same x.session_id x.slice_start y h in λ i. a i == s && b i =ℕ= t

same_slice_at :
    (s : String) (t : ℕ) (new x : Slice)
    → same_slice s t new ≡ true
    → same_slice new.session_id new.slice_start x ≡ same_slice s t x
same_slice_at s t new x h =
    let (a, b) = parts_of_same s t new h in λ i. x.session_id == a i && x.slice_start =ℕ= b i

find-put_slice :
    (new : Slice) (s : String) (t : ℕ) (xs : List Slice)
    → find (same_slice s t) (put_slice new xs) ≡ place new s t (find (same_slice s t) xs)
unfolding put_slice
find-put_slice new s t [] = refl
find-put_slice new s t (x ∷ xs) = elim (Bool-cases (same_slice new.session_id new.slice_start x)) [
  | inl e ↦
      let key = same_of_same s t new x e in
      elim (Bool-cases (same_slice s t x)) [
        | inl f ↦ rw (e, f, sym key ∙ f) refl
        | inr f ↦ rw (e, f, sym key ∙ f) refl
      ]
  | inr e ↦ elim (Bool-cases (same_slice s t x)) [
    | inl f ↦ elim (Bool-cases (same_slice s t new)) [
      | inl k ↦ absurd (ground (arith, same_slice_at s t new x k, e, f))
      | inr k ↦ rw (e, f, k) refl
    ]
    | inr f ↦ rw (e, f) (find-put_slice new s t xs)
  ]
]

abbrev pub put_all : List Slice → List Slice → List Slice
put_all [] rows = rows
put_all (x ∷ xs) rows = put_all xs (put_slice x rows)

abbrev pub place_all : List Slice → String → ℕ → Option Slice → Option Slice
place_all [] s t o = o
place_all (x ∷ xs) s t o = place_all xs s t (place x s t o)

pub find-put_all :
    (xs rows : List Slice) (s : String) (t : ℕ)
    → find (same_slice s t) (put_all xs rows) ≡ place_all xs s t (find (same_slice s t) rows)
find-put_all [] rows s t = refl
find-put_all (x ∷ xs) rows s t =
    find-put_all xs (put_slice x rows) s t ∙ ap (place_all xs s t) (find-put_slice x s t rows)

-- A row that a batch overwrites, and its fields that no upsert writes.
abbrev HasKey : List Slice → String → ℕ → Type 0
HasKey [] s t = ⊥
HasKey (x ∷ xs) s t = (same_slice s t x ≡ true) ⊎ HasKey xs s t

place_all-overwrite :
    (xs : List Slice) (s : String) (t : ℕ) (y r : Slice)
    → HasKey xs s t
    → place_all xs s t (some (overwrite y r)) ≡ place_all xs s t (some r)
place_all-overwrite [] s t y r h = absurd h
place_all-overwrite (x ∷ xs) s t y r h = elim (Bool-cases (same_slice s t x)) [
  | inl e ↦ rw e refl
  | inr e ↦ elim h [
    | inl f ↦ absurd (ground (arith, e, f))
    | inr k ↦ rw e (place_all-overwrite xs s t y r k)
  ]
]

HasKey-cases :
    (xs : List Slice) (s : String) (t : ℕ)
    → HasKey xs s t ⊎ ((o : Option Slice) → place_all xs s t o ≡ o)
HasKey-cases [] s t = inr (λ o. refl)
HasKey-cases (x ∷ xs) s t = elim (Bool-cases (same_slice s t x)) [
  | inl e ↦ inl (inl e)
  | inr e ↦ elim (HasKey-cases xs s t) [ inl k ↦ inl (inr k) | inr k ↦ inr (λ o. rw e (k o)) ]
]

place_all-some :
    (xs : List Slice) (s : String) (t : ℕ) (r : Slice)
    → (q : Slice) × (place_all xs s t (some r) ≡ some q)
place_all-some [] s t r = (r, refl)
place_all-some (x ∷ xs) s t r = elim (Bool-cases (same_slice s t x)) [
  | inl e ↦ rw e (place_all-some xs s t (overwrite x r))
  | inr e ↦ rw e (place_all-some xs s t r)
]

overwrite_merged : (x : Slice) (o : Option Slice) → overwrite x (merge x o) ≡ merge x o
overwrite_merged x none = refl
overwrite_merged x (some r) = refl

-- What a batch makes of a row, it makes of it again.
pub place_all_twice :
    (xs : List Slice) (s : String) (t : ℕ) (o : Option Slice)
    → place_all xs s t (place_all xs s t o) ≡ place_all xs s t o
place_all_twice [] s t o = refl
place_all_twice (x ∷ xs) s t o = elim (Bool-cases (same_slice s t x)) [
  | inr e ↦ rw e (place_all_twice xs s t o)
  | inl e ↦ elim (HasKey-cases xs s t) [
    | inr k ↦ rw e (rw (k (some (merge x o))) (rw (overwrite_merged x o) (k (some (merge x o)))))
    | inl k ↦
        let (q, h) = place_all-some xs s t (merge x o) in
        rw e (
          ap (λ r. place_all xs s t (some (merge x r))) h
          ∙ (place_all-overwrite xs s t x q k
              ∙ (ap (place_all xs s t) (sym h) ∙ place_all_twice xs s t (some (merge x o)))))
  ]
]
