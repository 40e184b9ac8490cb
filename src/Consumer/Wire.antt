-- ===== src/Consumer/Wire.antt =====
-- What `decode` of services/pkg/kafka/consumer.go makes of the message of a row of the outbox
-- (services/pkg/outbox/outbox.go), whose headers the producer sends in any order.
use aizorix_freelancer.Base.{
  ℕ, String, false, Option, none, some, List, [], ◌∷◌, ◌≡◌, refl, ◌==◌, ◌=ℕ=◌, arith, inl, inr, ap,
  sym, ◌∙◌, if◌then◌else◌, Bool-cases, eq_iff,
}
use text.Mathlib.TextLemmas.{append_cancel_left}
use Prim.Native.String.{◌++◌}
use aizorix_freelancer.Base.Table.{find}
use aizorix_freelancer.Relay.Outbox.{Row, put, event_id, message}
use aizorix_freelancer.Consumer.Process.{Message, is_header, header, header_map, decode}

-- The names of a map's headers are distinct.
abbrev pub UniqueNames : List (String × String) → Type 0
UniqueNames [] = Unit
UniqueNames ((name, value) ∷ hs) = (find (is_header name) hs ≡ none) × UniqueNames hs

-- A list of the headers of a map, in any order.
abbrev pub Lists : List (String × String) → List (String × String) → Type 0
Lists hs wire =
    UniqueNames wire × ((name : String) → find (is_header name) wire ≡ find (is_header name) hs)

find-put :
    (name key value : String) (hs : List (String × String))
    → find (is_header name) (put key value hs)
      ≡ (if key == name then some (key, value) else find (is_header name) hs)
find-put name key value [] = refl
find-put name key value ((k, v) ∷ hs) = elim (Bool-cases (k == key)) [
  | inl e ↦
      let same : k ≡ key = (eq_iff k key).0 e in
      let tests : (k == name) ≡ (key == name) = ap (λ t. t == name) same in
      elim (Bool-cases (key == name)) [
        | inl q ↦ rw (e, tests, q) (ap (λ t. some (t, value)) same)
        | inr q ↦ rw (e, tests, q) refl
      ]
  | inr e ↦ elim (Bool-cases (k == name)) [
    | inl q ↦
        let same : k ≡ name = (eq_iff k name).0 q in
        let other : (key == name) ≡ false =
          ap (λ t. key == t) (sym same) ∙ ground (arith, eq_iff k key, eq_iff key k, e) in
        rw (e, q, other) refl
    | inr q ↦ rw (e, q, find-put name key value hs) refl
  ]
]

abbrev or_else : Option (String × String) → Option (String × String) → Option (String × String)
or_else none b = b
or_else (some a) b = some a

or_else-none : (a : Option (String × String)) → or_else a none ≡ a
or_else-none none = refl
or_else-none (some a) = refl

find-header_map :
    (name : String) (wire hs : List (String × String))
    → UniqueNames wire
    → find (is_header name) (header_map wire hs)
      ≡ or_else (find (is_header name) wire) (find (is_header name) hs)
find-header_map name [] hs u = refl
find-header_map name ((k, v) ∷ wire) hs u =
    let rest = find-header_map name wire (put k v hs) u.1 in
    let new = find-put name k v hs in
    elim (Bool-cases (k == name)) [
      | inl e ↦
          let free : find (is_header name) wire ≡ none =
            ap (λ n. find (is_header n) wire) (sym ((eq_iff k name).0 e)) ∙ u.0 in
          rw (rest, free, new, e) refl
      | inr e ↦ rw (rest, new, e) refl
    ]

header-header_map :
    (name : String) (wire hs : List (String × String))
    → Lists hs wire
    → header name (header_map wire []) ≡ header name hs
header-header_map name wire hs l =
    let same : find (is_header name) (header_map wire []) ≡ find (is_header name) hs =
      find-header_map name wire [] l.0 ∙ or_else-none (find (is_header name) wire) ∙ l.1 name in
    ap (λ found. elim found [ none ↦ "" | some (key, value) ↦ value ]) same

abbrev pub IsInjective : (ℕ → String) → Type 0
IsInjective show = (i j : ℕ) → show i ≡ show j → i ≡ j

event_id_injective :
    (show : ℕ → String) (source : String) (i j : ℕ)
    → IsInjective show
    → event_id show source i ≡ event_id show source j
    → i ≡ j
event_id_injective show source i j s h = elim (Bool-cases (source == "")) [
  | inl e ↦
      let plain : (n : ℕ) → event_id show source n ≡ show n = λ n. rw e refl in
      s i j (sym (plain i) ∙ h ∙ plain j)
  | inr e ↦
      let full : (n : ℕ) → event_id show source n ≡ source ++ ":" ++ show n = λ n. rw e refl in
      s i j (
        append_cancel_left ":" (show i) (show j)
          (append_cancel_left source (":" ++ show i) (":" ++ show j) (sym (full i) ∙ h ∙ full j)))
]

event_id-test :
    (show : ℕ → String) (source : String) (i j : ℕ)
    → IsInjective show
    → (event_id show source i == event_id show source j) ≡ (i =ℕ= j)
event_id-test show source i j s = elim (Bool-cases (i =ℕ= j)) [
  | inl e ↦
      let same : i ≡ j = ground arith in
      (eq_iff (event_id show source i) (event_id show source j)).1 (ap (event_id show source) same)
      ∙ sym e
  | inr e ↦ elim (Bool-cases (event_id show source i == event_id show source j)) [
    | inr q ↦ q ∙ sym e
    | inl q ↦
        let same : i ≡ j =
          event_id_injective show source i j s
            ((eq_iff (event_id show source i) (event_id show source j)).0 q) in
        ground arith
  ]
]

header-message :
    (show : ℕ → String) (source : String) (x : Row)
    → (header "event-id" (message show source x).headers ≡ event_id show source x.id)
      × (header "event-type" (message show source x).headers ≡ x.event_type)
header-message show source x =
    let stamped = put "event-id" (event_id show source x.id) x.headers in
    let id = find-put "event-id" "event-id" (event_id show source x.id) x.headers in
    let kept = find-put "event-id" "event-type" x.event_type stamped in
    let type_put = find-put "event-type" "event-type" x.event_type stamped in
    (
      ap (λ found. elim found [ none ↦ "" | some (key, value) ↦ value ]) (kept ∙ id),
      ap (λ found. elim found [ none ↦ "" | some (key, value) ↦ value ]) type_put,
    )

-- The event that is decoded from a message of the bus with some headers in some order.
abbrev pub decoded : (ℕ → String) → String → Row → List (String × String) → Message
decoded show source x wire = let m = message show source x in decode m.topic m.key m.payload wire

-- In whatever order the headers of a row's message are sent: the consumer decodes the row's event
-- id and type, and where no two numbers are printed alike, the decoded events of two rows of a
-- source have the same id exactly when the rows have.
pub decode_message :
    (show : ℕ → String) (source : String) (x y : Row) (wire other : List (String × String))
    → IsInjective show
    → Lists (message show source x).headers wire
    → Lists (message show source y).headers other
    → ((decoded show source x wire).event_id ≡ event_id show source x.id)
      × ((decoded show source x wire).event_type ≡ x.event_type)
      × (((decoded show source x wire).event_id == (decoded show source y other).event_id)
          ≡ (x.id =ℕ= y.id))
decode_message show source x y wire other s l k =
    let id_of : (z : Row) (w : List (String × String))
        → Lists (message show source z).headers w
        → (decoded show source z w).event_id ≡ event_id show source z.id =
      λ z w h.
        header-header_map "event-id" w (message show source z).headers h
        ∙ (header-message show source z).0 in
    (
      id_of x wire l,
      header-header_map "event-type" wire (message show source x).headers l
          ∙ (header-message show source x).1,
      rw (id_of x wire l, id_of y other k) (event_id-test show source x.id y.id s),
    )
