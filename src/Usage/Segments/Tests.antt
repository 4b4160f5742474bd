-- ===== src/Usage/Segments/Tests.antt =====
-- A run of one exchange with its events.
use abyss_backend.Common.{ℕ, [], ◌∷◌, map, true, none, some, ◌≡◌, refl, pos, nat_eq}
use abyss_backend.Search.Text.{codes}
use abyss_backend.Streams.Answers.{SegmentExchange, SegmentRun}
use abyss_backend.Usage.Preview.{Window}
use abyss_backend.Usage.Events.{EventTokenUsage, UsageEventResponse}
use abyss_backend.Usage.Segments.{Events, segment_response, run_event_pks}
use abyss_backend.Usage.Segments.Filled.{filled, segment_response-filled}

abbrev exchange : SegmentExchange
exchange = record {
  id = "a";
  request_pk = some 1;
  response_pk = some 2;
  base = none;
  base_segment = none;
  rule = none;
  no_base_reason = none;
  new_from = some 0;
  starts_turn = true;
  subagent_id = none;
  parent_subagent_id = none;
  turn_id = none;
  turn = none;
}

abbrev run : SegmentRun
run = record { segment = "a"; exchanges = exchange ∷ [] }

abbrev tokens : EventTokenUsage
tokens = record {
  input_tokens = pos 3;
  output_tokens = pos 4;
  cache_read_tokens = pos 0;
  cache_write_tokens = pos 0;
  reasoning_tokens = pos 0;
  total_tokens = pos 7;
}

abbrev event : ℕ → UsageEventResponse
event id = record {
  id = id;
  session_pk = 7;
  location = none;
  observed_at = id;
  model = codes "gpt-5";
  token_usage = tokens;
  entries = some (codes "hello") ∷ [];
}

abbrev events : Events
events = (2, event 2) ∷ (1, event 1) ∷ []

abbrev window : Window
window = record { runs = none; text_preview = some 2 }

segment_response-filled_example :
    (segment_response 7 run events window).exchanges ≡ map (filled window events) run.exchanges
unfolding run_event_pks
segment_response-filled_example = segment_response-filled 7 run events window (refl, (refl, tt))
