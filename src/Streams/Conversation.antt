-- ===== src/Streams/Conversation.antt =====
-- usage/conversation.rs, and `conversation_entries` of usage/streams/facts.rs: the entries of a
-- completely decoded conversation. What serde decodes from the stored value is the argument, none
-- where it decodes nothing.
mod Tests
use abyss_backend.Common.{Bool, List, [], Option, none, some, if◌then◌else◌, and_then, map_or}
use abyss_backend.Streams.Events.{Entry}

pub data Completeness : Type 0 where
  complete partial unsupported : Completeness

pub record Conversation : Type 0 where
  pub entries : List Entry
  pub completeness : Completeness

abbrev pub is_complete : Completeness → Bool
is_complete complete = Bool.true
is_complete _ = Bool.false

-- `Conversation::read`
unfoldable pub read : Option Conversation → Option Conversation
read decoded =
    and_then decoded λ (c : Conversation). if is_complete c.completeness then some c else none

-- `conversation_entries`
unfoldable pub conversation_entries : Option Conversation → List Entry
unfolding read
conversation_entries decoded = map_or [] (λ (c : Conversation). c.entries) (read decoded)
