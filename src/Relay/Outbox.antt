-- ===== src/Relay/Outbox.antt =====
-- The rows of the table `outbox`, the messages on the bus, and the queries of `drain` of
-- services/pkg/outbox/outbox.go. The payload of a row is its JSON text.
use aizorix_freelancer.Base.{
  ℕ, zero, suc, String, Bool, Option, some, List, [], ◌∷◌, ◌==◌, ◌=ℕ=◌, ◌&&◌, leb, not,
  if◌then◌else◌, is_some,
}
use aizorix_freelancer.Base.Table.{update, rows_by}
use Prim.Native.String.{◌++◌}

pub record Row : Type 0 where
  pub id : ℕ
  pub event_type : String
  pub topic : String
  pub partition_key : String
  pub payload : String
  pub headers : List (String × String)
  pub published_at : Option ℕ

pub record Message : Type 0 where
  pub topic : String
  pub key : String
  pub payload : String
  pub headers : List (String × String)

abbrev pub has_row_id : ℕ → Row → Bool
has_row_id id x = x.id =ℕ= id

-- `m[name] = value`
abbrev pub put : String → String → List (String × String) → List (String × String)
put name value [] = (name, value) ∷ []
put name value ((key, old) ∷ rest) =
    let others = put name value rest in
    if key == name then (key, value) ∷ rest else (key, old) ∷ others

abbrev pub insert_by_id : Row → List Row → List Row
insert_by_id x [] = x ∷ []
insert_by_id x (y ∷ ys) =
    let rest = insert_by_id x ys in if leb x.id y.id then x ∷ (y ∷ ys) else y ∷ rest

-- `ORDER BY id`
abbrev pub by_id : List Row → List Row
by_id [] = []
by_id (x ∷ xs) = insert_by_id x (by_id xs)

-- `LIMIT n`
abbrev pub first_rows : ℕ → List Row → List Row
first_rows zero xs = []
first_rows (suc n) [] = []
first_rows (suc n) (x ∷ xs) = x ∷ first_rows n xs

-- A row that is not published, and that no other replica has locked.
abbrev pub is_free : (ℕ → Bool) → Row → Bool
is_free locked x = not (is_some x.published_at) && not (locked x.id)

abbrev pub unpublished : (ℕ → Bool) → ℕ → List Row → List Row
unpublished locked limit rows = first_rows limit (by_id (rows_by (is_free locked) rows))

abbrev pub set_published : ℕ → Row → Row
set_published now x = record x { published_at = some now }

abbrev pub mark_published : ℕ → ℕ → List Row → List Row
mark_published now id rows = update (has_row_id id) (set_published now) rows

module _ (show : ℕ → String) where
  -- `show` is `fmt.Sprintf("%d", id)`.
  abbrev pub event_id : String → ℕ → String
  event_id source id = if not (source == "") then source ++ ":" ++ show id else show id

  abbrev pub message : String → Row → Message
  message source x = record {
    topic = x.topic;
    key = x.partition_key;
    payload = x.payload;
    headers = put "event-type" x.event_type (put "event-id" (event_id source x.id) x.headers);
  }
