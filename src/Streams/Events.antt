-- ===== src/Streams/Events.antt =====
-- The data that streams are derived from: conversation entries (usage/conversation.rs), the facts
-- that ingest reads from them (usage/streams/facts.rs) and the stored events (usage/streams.rs).
use abyss_backend.Common.{ℕ, String, Bool, List, Option}

-- One conversation entry as the collector reports it.
pub record Entry : Type 0 where
  pub role : String
  pub text : String
  pub call_id : Option String
  pub item_id : Option String

-- A skeleton entry is an entry's role and key.
abbrev pub SkeletonEntry : Type 0
SkeletonEntry = String × Option String

pub record Label : Type 0 where
  pub index : ℕ
  pub text : String
  pub length : ℕ

pub record RequestFacts : Type 0 where
  pub new_from : ℕ
  pub last_identity : Option String
  pub previous_identity : Option String
  pub trailing : List String
  pub result_ids : List String
  pub starts_turn : Bool
  pub label : Option Label

pub record ResponseFacts : Type 0 where
  pub emitted_ids : List String
  pub output_skeleton : List SkeletonEntry

pub data EventFacts : Type 0 where
  request : RequestFacts → EventFacts
  response : ResponseFacts → EventFacts

-- Primary keys and times are numbers: a UUID is one of 128 bits, and an instant counts the
-- nanoseconds from the earliest one that `DateTime<Utc>` holds.
pub record StreamEvent : Type 0 where
  pub pk : ℕ
  pub event_id : String
  pub observed_at : ℕ
  pub response_id : Option String
  pub previous_response_id : Option String
  pub subagent_id : Option String
  pub parent_subagent_id : Option String
  pub turn_id : Option String
  pub facts : EventFacts
