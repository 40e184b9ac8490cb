-- ===== src/Escrow/Rows.antt =====
-- The allocation rows: their ids are unique, so that the row that a release marks is the one that
-- its query found.
use aizorix_freelancer.Base.{
  String, Bool, true, false, none, some, List, [], ◌∷◌, ◌++◌, ◌≡◌, refl, ◌==◌, ◌&&◌, arith, inl,
  inr, Bool-cases, eq_iff, eq_refl,
}
use aizorix_freelancer.Base.Table.{find, update, test_of_find-none, find-append, find-none_narrower}
use aizorix_freelancer.Escrow.Tables.{Allocation, is_reserved}
use aizorix_freelancer.Escrow.Store.{is_reserved_milestone, is_reserved_row, collides, set_released}

abbrev pub has_row_id : String → Allocation → Bool
has_row_id id a = a.id == id

abbrev pub UniqueIds : List Allocation → Type 0
UniqueIds [] = Unit
UniqueIds (a ∷ rest) = (find (has_row_id a.id) rest ≡ none) × UniqueIds rest

-- A row that is found further down has another id than the head.
pub id_differs :
    (x a : Allocation) (test : Allocation → Bool) (rest : List Allocation)
    → find (has_row_id x.id) rest ≡ none
    → find test rest ≡ some a
    → (x.id == a.id) ≡ false
id_differs x a test rest n h =
    ground (
      arith,
      test_of_find-none (has_row_id x.id) test a rest n h,
      eq_iff x.id a.id,
      eq_iff a.id x.id,
    )

-- The row that the milestone's query finds is the one that its id marks.
pub reserved_row_of_milestone :
    (e m : String) (a : Allocation) (xs : List Allocation)
    → UniqueIds xs
    → find (is_reserved_milestone e m) xs ≡ some a
    → find (is_reserved_row a.id) xs ≡ some a
reserved_row_of_milestone e m a [] u h = ground arith
reserved_row_of_milestone e m a (x ∷ xs) u h = elim (Bool-cases (is_reserved_milestone e m x)) [
  | inl t ↦ ground (arith, eq_refl x.id)
  | inr f ↦
      let h' : find (is_reserved_milestone e m) xs ≡ some a = ground arith in
      ground (arith, id_differs x a _ xs u.0 h', reserved_row_of_milestone e m a xs u.1 h')
]

and_true_left : (b c : Bool) → (b && c) ≡ true → b ≡ true
and_true_left true c h = refl
and_true_left false c h = cc

collides_of_id : (a x : Allocation) → has_row_id a.id x ≡ true → collides a x ≡ true
collides_of_id a x h = rw h

-- A row that goes to the end of the table is found there by its id.
pub reserved_row_of_new :
    (a : Allocation) (xs : List Allocation)
    → find (collides a) xs ≡ none
    → is_reserved a.status ≡ true
    → find (is_reserved_row a.id) (xs ++ a ∷ []) ≡ some a
reserved_row_of_new a xs n r =
    let none_yet =
      find-none_narrower (is_reserved_row a.id) (collides a) xs
        (λ x t. collides_of_id a x (and_true_left (x.id == a.id) (is_reserved x.status) t)) n in
    rw (find-append (is_reserved_row a.id) a xs none_yet) (ground (arith, eq_refl a.id))

pub UniqueIds-append :
    (a : Allocation) (xs : List Allocation)
    → UniqueIds xs
    → find (has_row_id a.id) xs ≡ none
    → UniqueIds (xs ++ a ∷ [])
UniqueIds-append a [] u n = (refl, tt)
UniqueIds-append a (x ∷ xs) u n =
    let differs : (x.id == a.id) ≡ false = ground arith in
    let rest : find (has_row_id a.id) xs ≡ none = ground arith in
    (
      rw (find-append (has_row_id x.id) a xs u.0)
          (ground (arith, eq_iff x.id a.id, eq_iff a.id x.id)),
      UniqueIds-append a xs u.1 rest,
    )

pub has_row_id-none :
    (a : Allocation) (xs : List Allocation)
    → find (collides a) xs ≡ none
    → find (has_row_id a.id) xs ≡ none
has_row_id-none a xs n = find-none_narrower (has_row_id a.id) (collides a) xs (collides_of_id a) n

-- Marking a row keeps every query that does not read the status.
pub find-none_marked :
    (test mark : Allocation → Bool) (xs : List Allocation)
    → ((x : Allocation) → test (set_released x) ≡ test x)
    → find test xs ≡ none
    → find test (update mark set_released xs) ≡ none
find-none_marked test mark [] keep n = refl
find-none_marked test mark (x ∷ xs) keep n =
    ground (arith, keep x, find-none_marked test mark xs keep)

pub UniqueIds-marked :
    (mark : Allocation → Bool) (xs : List Allocation)
    → UniqueIds xs
    → UniqueIds (update mark set_released xs)
UniqueIds-marked mark [] u = tt
UniqueIds-marked mark (x ∷ xs) u = elim (Bool-cases (mark x)) [
  | inl t ↦ rw t (u.0, u.1)
  | inr f ↦
      rw f
        (find-none_marked (has_row_id x.id) mark xs (λ y. refl) u.0, UniqueIds-marked mark xs u.1)
]
