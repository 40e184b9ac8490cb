-- ===== src/Relay/Rows.antt =====
-- The rows of the outbox and the log of the bus (services/pkg/outbox/outbox.go): ids and batches.
use aizorix_freelancer.Base.{
  ℕ, zero, suc, Bool, true, false, none, some, List, [], ◌∷◌, ◌++◌, ◌≡◌, refl, ◌=ℕ=◌, ◌⊎◌, arith,
  inl, inr, ap, ◌∙◌, Bool-cases, leb,
}
use aizorix_freelancer.Base.Table.{find, rows_by, find-append_other}
use aizorix_freelancer.Base.Rows.{All, All-map, All-rows_by}
use aizorix_freelancer.Relay.Outbox.{
  Row, Message, has_row_id, insert_by_id, by_id, first_rows, is_free, unpublished, mark_published,
}

abbrev pub IsLogged : Message → List Message → Type 0
IsLogged m [] = ⊥
IsLogged m (n ∷ ns) = (n ≡ m) ⊎ IsLogged m ns

pub IsLogged-append :
    (m n : Message) (ns : List Message) → IsLogged m ns → IsLogged m (ns ++ n ∷ [])
IsLogged-append m n [] h = absurd h
IsLogged-append m n (k ∷ ns) (inl e) = inl e
IsLogged-append m n (k ∷ ns) (inr h) = inr (IsLogged-append m n ns h)

pub IsLogged-last : (m : Message) (ns : List Message) → IsLogged m (ns ++ m ∷ [])
IsLogged-last m [] = inl refl
IsLogged-last m (n ∷ ns) = inr (IsLogged-last m ns)

-- The ids are a primary key.
abbrev pub UniqueIds : List Row → Type 0
UniqueIds [] = Unit
UniqueIds (x ∷ xs) = (find (has_row_id x.id) xs ≡ none) × UniqueIds xs

-- The row of an id.
abbrev pub IsRow : List Row → Row → Type 0
IsRow rows x = find (has_row_id x.id) rows ≡ some x

same_id_refl : (n : ℕ) → (n =ℕ= n) ≡ true
same_id_refl n = ground arith

IsRow-cons :
    (x y : Row) (xs : List Row) → find (has_row_id x.id) xs ≡ none → IsRow xs y → IsRow (x ∷ xs) y
IsRow-cons x y xs n h = elim (Bool-cases (x.id =ℕ= y.id)) [
  | inl e ↦
      let same : x.id ≡ y.id = ground arith in
      ground (arith, ap (λ i. find (has_row_id i) xs) same, n, h)
  | inr e ↦ rw e h
]

pub All-IsRow : (xs : List Row) → UniqueIds xs → All (IsRow xs) xs
All-IsRow [] u = tt
All-IsRow (x ∷ xs) u = (
  rw (same_id_refl x.id) refl,
  All-map (IsRow xs) (IsRow (x ∷ xs)) xs (λ y h. IsRow-cons x y xs u.0 h) (All-IsRow xs u.1),
)

All-insert_by_id :
    (P : Row → Type 0) (x : Row) (xs : List Row) → P x → All P xs → All P (insert_by_id x xs)
All-insert_by_id P x [] p a = (p, tt)
All-insert_by_id P x (y ∷ ys) p a = elim (Bool-cases (leb x.id y.id)) [
  | inl e ↦ rw e (p, a)
  | inr e ↦ rw e (a.0, All-insert_by_id P x ys p a.1)
]

pub All-by_id : (P : Row → Type 0) (xs : List Row) → All P xs → All P (by_id xs)
All-by_id P [] a = tt
All-by_id P (x ∷ xs) a = All-insert_by_id P x (by_id xs) a.0 (All-by_id P xs a.1)

pub All-first_rows : (P : Row → Type 0) (n : ℕ) (xs : List Row) → All P xs → All P (first_rows n xs)
All-first_rows P zero xs a = tt
All-first_rows P (suc n) [] a = tt
All-first_rows P (suc n) (x ∷ xs) a = (a.0, All-first_rows P n xs a.1)

pub All-unpublished :
    (P : Row → Type 0) (locked : ℕ → Bool) (limit : ℕ) (xs : List Row)
    → All P xs
    → All P (unpublished locked limit xs)
All-unpublished P locked limit xs a =
    All-first_rows P limit (by_id (rows_by (is_free locked) xs))
      (All-by_id P (rows_by (is_free locked) xs) (All-rows_by P (is_free locked) xs a))

find-none_marked :
    (now id k : ℕ) (xs : List Row)
    → find (has_row_id k) xs ≡ none
    → find (has_row_id k) (mark_published now id xs) ≡ none
find-none_marked now id k [] n = refl
find-none_marked now id k (x ∷ xs) n = ground (arith, find-none_marked now id k xs)

pub UniqueIds-mark :
    (now id : ℕ) (xs : List Row) → UniqueIds xs → UniqueIds (mark_published now id xs)
UniqueIds-mark now id [] u = tt
UniqueIds-mark now id (x ∷ xs) u = elim (Bool-cases (has_row_id id x)) [
  | inl e ↦ rw e u
  | inr e ↦ rw e (find-none_marked now id x.id xs u.0, UniqueIds-mark now id xs u.1)
]

pub UniqueIds-append :
    (x : Row) (xs : List Row)
    → UniqueIds xs
    → find (has_row_id x.id) xs ≡ none
    → UniqueIds (xs ++ x ∷ [])
UniqueIds-append x [] u n = (refl, tt)
UniqueIds-append x (y ∷ ys) u n = elim (Bool-cases (y.id =ℕ= x.id)) [
  | inl e ↦ ground arith
  | inr e ↦
      let back : (x.id =ℕ= y.id) ≡ false = ground arith in
      let rest : find (has_row_id x.id) ys ≡ none = ground arith in
      (find-append_other (has_row_id y.id) x ys back ∙ u.0, UniqueIds-append x ys u.1 rest)
]
