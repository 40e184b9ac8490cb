-- ===== src/Escrow/Once.antt =====
-- What has happened once stays so: keys that are used, weeks and milestones that are paid.
use aizorix_freelancer.Base.{
  String, Bool, true, none, List, [], ◌∷◌, ◌++◌, ◌≡◌, refl, arith, inl, inr, Bool-cases,
  Option-cases, eq_iff, is_some,
}
use aizorix_freelancer.Base.Table.{
  find, update, test-find, test_of_find-none, find-append, find-append_some,
}
use aizorix_freelancer.Escrow.Tables.{Allocation, Db, is_active}
use aizorix_freelancer.Escrow.Store.{
  is_fund_key, is_reserved_milestone, is_active_milestone, is_active_week, collides, set_released,
}
use aizorix_freelancer.Escrow.Effects.{
  Effect, opened, claimed, deposited, allocated, paid, returned, Effects, unchanged, step,
}

-- Some row passes the test.
abbrev pub Has : {A : Type 0} → (A → Bool) → List A → Type 0
Has test xs = is_some (find test xs) ≡ true

pub Has-append :
    {A : Type 0} (test : A → Bool) (xs : List A) (a : A) → Has test xs → Has test (xs ++ a ∷ [])
Has-append test xs a h = elim (Option-cases (find test xs)) [
  | inl n ↦ absurd (ground (arith, n))
  | inr (b, s) ↦ rw (find-append_some test a b xs s)
]

-- A test that does not tell a marked row from the row still finds one.
pub Has-marked :
    (test mark : Allocation → Bool) (xs : List Allocation)
    → ((x : Allocation) → test x ≡ true → test (set_released x) ≡ true)
    → Has test xs
    → Has test (update mark set_released xs)
Has-marked test mark [] keep h = h
Has-marked test mark (x ∷ xs) keep h = ground (arith, keep x, Has-marked test mark xs keep)

-- Fund keys are never given back.
pub Effect-fund_key :
    {db db' : Db} (c k : String)
    → Effect db db'
    → Has (is_fund_key c k) db.fund_keys
    → Has (is_fund_key c k) db'.fund_keys
Effect-fund_key c k (opened e n m z) h = h
Effect-fund_key {db} c k (claimed row n) h = Has-append (is_fund_key c k) db.fund_keys row h
Effect-fund_key c k (deposited id g contract amount e ev s p v) h = h
Effect-fund_key c k (allocated e a s p fits n q) h = h
Effect-fund_key c k (paid g e e' a st ev s row v same) h = h
Effect-fund_key c k (returned id g amount e st memo ev s p fits v) h = h

active_released :
    (x : Allocation) → is_active x.status ≡ true → is_active (set_released x).status ≡ true
active_released x h = refl

-- Allocations of a week stay.
pub Effect-week :
    {db db' : Db} (id w : String)
    → Effect db db'
    → Has (is_active_week id w) db.allocations
    → Has (is_active_week id w) db'.allocations
Effect-week id w (opened e n m z) h = h
Effect-week id w (claimed row n) h = h
Effect-week id w (deposited i g contract amount e ev s p v) h = h
Effect-week {db} id w (allocated e a s p fits n q) h =
    Has-append (is_active_week id w) db.allocations a h
Effect-week {db} id w (paid g e e' a st ev s row v same) h =
    Has-marked (is_active_week id w) _ db.allocations (λ x t. ground arith) h
Effect-week id w (returned i g amount e st memo ev s p fits v) h = h

-- A milestone with an allocation that is not reserved any more.
pub record IsPaid (id m : String) (db : Db) : Type 0 where
  pub active : Has (is_active_milestone id m) db.allocations
  pub none_reserved : find (is_reserved_milestone id m) db.allocations ≡ none

-- A new row of a milestone that has an active one is refused by the unique index.
collides_of_milestone :
    (id m : String) (a x : Allocation)
    → is_reserved_milestone id m a ≡ true
    → is_active_milestone id m x ≡ true
    → collides a x ≡ true
collides_of_milestone id m a x t u = elim (Option-cases a.milestone_id) [
  | inl n ↦ ground arith
  | inr (k, s) ↦ ground (arith, eq_iff a.escrow_id id, eq_iff k m)
]

none_reserved-marked :
    (id m : String) (mark : Allocation → Bool) (xs : List Allocation)
    → find (is_reserved_milestone id m) xs ≡ none
    → find (is_reserved_milestone id m) (update mark set_released xs) ≡ none
none_reserved-marked id m mark [] n = refl
none_reserved-marked id m mark (x ∷ xs) n = ground (arith, none_reserved-marked id m mark xs)

none_reserved-append :
    (id m : String) (a : Allocation) (xs : List Allocation)
    → Has (is_active_milestone id m) xs
    → find (collides a) xs ≡ none
    → find (is_reserved_milestone id m) xs ≡ none
    → find (is_reserved_milestone id m) (xs ++ a ∷ []) ≡ none
none_reserved-append id m a xs h n r = elim (Option-cases (find (is_active_milestone id m) xs)) [
  | inl none_active ↦ absurd (ground (arith, none_active))
  | inr (x, s) ↦ elim (Bool-cases (is_reserved_milestone id m a)) [
    | inl t ↦
        let yes_collides = collides_of_milestone id m a x t (test-find _ x xs s) in
        let no_collides = test_of_find-none (collides a) (is_active_milestone id m) x xs n s in
        absurd (ground (arith, yes_collides, no_collides))
    | inr f ↦ rw (find-append (is_reserved_milestone id m) a xs r, f)
  ]
]

-- A paid milestone stays paid under every change.
pub Effect-IsPaid : {db db' : Db} (id m : String) → Effect db db' → IsPaid id m db → IsPaid id m db'
Effect-IsPaid id m (opened e n z y) h = record {
  active = h.active;
  none_reserved = h.none_reserved;
}
Effect-IsPaid id m (claimed row n) h = record { active = h.active; none_reserved = h.none_reserved }
Effect-IsPaid id m (deposited i g contract amount e ev s p v) h = record {
  active = h.active;
  none_reserved = h.none_reserved;
}
Effect-IsPaid {db} id m (allocated e a s p fits n q) h = record {
  active = Has-append (is_active_milestone id m) db.allocations a h.active;
  none_reserved = none_reserved-append id m a db.allocations h.active n h.none_reserved;
}
Effect-IsPaid {db} id m (paid g e e' a st ev s row v same) h = record {
  active = Has-marked (is_active_milestone id m) _ db.allocations (λ x t. ground arith) h.active;
  none_reserved = none_reserved-marked id m _ db.allocations h.none_reserved;
}
Effect-IsPaid id m (returned i g amount e st memo ev s p fits v) h = record {
  active = h.active;
  none_reserved = h.none_reserved;
}

-- The same over many changes.
pub Effects-keep :
    {db db' : Db} (P : Db → Type 0)
    → ((d d' : Db) → Effect d d' → P d → P d')
    → Effects db db'
    → P db
    → P db'
Effects-keep P keep unchanged h = h
Effects-keep P keep (step es e) h = keep _ _ e (Effects-keep P keep es h)
