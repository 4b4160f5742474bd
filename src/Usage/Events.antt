-- ===== src/Usage/Events.antt =====
-- The stored event as the event API returns it (usage/event.rs): what the usage endpoints read of
-- it. The entries are those of its conversation.
use abyss_backend.Common.{ℕ, ℤ, List, Option}
use abyss_backend.Search.Text.{Text}
use abyss_backend.Streams.Answers.{EventLocation}
use abyss_backend.Usage.Preview.{Entry}

-- The counters are `i64`.
pub record EventTokenUsage : Type 0 where
  pub input_tokens : ℤ
  pub output_tokens : ℤ
  pub cache_read_tokens : ℤ
  pub cache_write_tokens : ℤ
  pub reasoning_tokens : ℤ
  pub total_tokens : ℤ

pub record UsageEventResponse : Type 0 where
  pub id : ℕ
  pub session_pk : ℕ
  pub location : Option EventLocation
  pub observed_at : ℕ
  pub model : Text
  pub token_usage : EventTokenUsage
  pub entries : List Entry
