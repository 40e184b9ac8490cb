-- ===== src/Consumer/Process.antt =====
-- `process` of services/pkg/kafka/consumer.go, with the table of the Deduper. The handler, the
-- cancellation of its context, and what the database and the bus do are arguments.
use aizorix_freelancer.Base.{
  ℕ, zero, suc, ◌+◌, String, Bool, true, false, none, some, List, [], ◌∷◌, ◌++◌, ◌==◌, ◌&&◌, not,
  if◌then◌else◌, is_some,
}
use aizorix_freelancer.Base.Table.{find}
use aizorix_freelancer.Relay.Outbox.{put}

-- The message that `decode` makes of one of the bus.
pub record Message : Type 0 where
  pub topic : String
  pub key : String
  pub value : String
  pub headers : List (String × String)
  pub event_id : String
  pub event_type : String

abbrev pub is_header : String → String × String → Bool
is_header name (key, value) = key == name

-- `headers[name]`, and the empty text where there is none.
abbrev pub header : String → List (String × String) → String
header name hs = elim (find (is_header name) hs) [ none ↦ "" | some (key, value) ↦ value ]

-- The headers of the bus as a map; a later one of the same name replaces the one before.
abbrev pub header_map : List (String × String) → List (String × String) → List (String × String)
header_map [] hs = hs
header_map ((key, value) ∷ rest) hs = header_map rest (put key value hs)

abbrev pub decode : String → String → String → List (String × String) → Message
decode topic key value headers = record {
  topic = topic;
  key = key;
  value = value;
  headers = header_map headers [];
  event_id = header "event-id" (header_map headers []);
  event_type = header "event-type" (header_map headers []);
}

-- Whether there is a Deduper, whether there is a dead-letter queue, and how often a message is
-- retried after the first attempt.
pub record Config : Type 0 where
  pub group : String
  pub dedupes : Bool
  pub has_dlq : Bool
  pub retries : ℕ

-- What becomes of a dead letter: it is lost and the producer reports an error, or it is on the queue
-- though the producer reports an error, or all goes well.
pub data Parking : Type 0 where
  unparked doubtful parked : Parking

-- How one delivery goes: whether the check of the Deduper can be read, whether the handler succeeds
-- at an attempt, whether the context is cancelled while it waits after one, what becomes of
-- a dead letter, and whether the mark can be written.
pub record Luck : Type 0 where
  pub reads : Bool
  pub handles : ℕ → Bool
  pub cancels : ℕ → Bool
  pub parks : Parking
  pub marks : Bool

-- The table `processed_events`, the messages that the handler has handled, and the dead letters.
pub record World : Type 0 where
  pub processed : List (String × String)
  pub handled : List Message
  pub dead : List Message

pub data Outcome : Type 0 where
  succeeded failed cancelled : Outcome

-- The attempts from one on, with a number of them left after it.
unfoldable pub attempts : Luck → ℕ → ℕ → Outcome
attempts luck attempt zero = if luck.handles attempt then succeeded else failed
attempts luck attempt (suc left) =
    let rest = attempts luck (attempt + 1) left in
    if luck.handles attempt then succeeded else (if luck.cancels attempt then cancelled else rest)

abbrev pub is_event : String → String → String × String → Bool
is_event group id (consumer, event) = consumer == group && event == id

abbrev pub already_processed : String → String → World → Bool
already_processed group id w = is_some (find (is_event group id) w.processed)

abbrev pub mark_processed : String → String → World → World
mark_processed group id w =
    if already_processed group id w
    then w
    else record w { processed = w.processed ++ (group, id) ∷ [] }

abbrev pub dedupes_message : Config → Message → Bool
dedupes_message cfg m = cfg.dedupes && not (m.event_id == "")

-- The mark, whose error is ignored.
abbrev pub mark : Config → Luck → Message → World → World
mark cfg luck m w =
    if dedupes_message cfg m && luck.marks then mark_processed cfg.group m.event_id w else w

abbrev pub add_dead : Message → World → World
add_dead m w = record w { dead = w.dead ++ m ∷ [] }

-- A message that is dead-lettered: whether the offset is committed, and the tables.
abbrev pub park : Config → Luck → Message → World → Parking → Bool × World
park cfg luck m w unparked = (false, w)
park cfg luck m w doubtful = (false, add_dead m w)
park cfg luck m w parked = (true, mark cfg luck m (add_dead m w))

-- From what the attempts have come to: whether the offset is committed, and the tables.
abbrev pub conclude : Config → Luck → Message → World → Outcome → Bool × World
conclude cfg luck m w succeeded =
    (true, mark cfg luck m (record w { handled = w.handled ++ m ∷ [] }))
conclude cfg luck m w failed = if cfg.has_dlq then park cfg luck m w luck.parks else (false, w)
conclude cfg luck m w cancelled = (false, w)

unfoldable pub process : Config → Luck → Message → World → Bool × World
unfolding attempts
process cfg luck m w =
    if dedupes_message cfg m && (luck.reads && already_processed cfg.group m.event_id w)
    then (true, w)
    else conclude cfg luck m w (attempts luck 1 cfg.retries)
