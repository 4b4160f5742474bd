-- ===== src/Streams/Answers/Tests.antt =====
-- streams.rs on a small session.
use abyss_backend.Common.{
  ℕ, String, true, List, [], ◌∷◌, map, Option, none, some, ◌≡◌, refl, get_elem?, first, contains,
  nat_eq, string_eq,
}
use abyss_backend.Streams.Events.{EventFacts, request, response, StreamEvent}
use abyss_backend.Streams.Sample.{sample_exchanges, continuing}
use abyss_backend.Streams.Exchanges.{Exchange, group_exchanges}
use abyss_backend.Streams.Structure.{derive, derive_from}
use abyss_backend.Streams.Answers.{
  SegmentExchange, SegmentRun, EventLocation, segment_run, event_position,
}
use abyss_backend.Streams.Answers.Events.{event_position-derive}
use abyss_backend.Streams.Answers.Runs.{segment_run-derive_from}

abbrev event : ℕ → ℕ → Option String → EventFacts → StreamEvent
event pk time response_id facts = record {
  pk = pk;
  event_id = "event";
  observed_at = time;
  response_id = response_id;
  previous_response_id = none;
  subagent_id = none;
  parent_subagent_id = none;
  turn_id = none;
  facts = facts;
}

abbrev events : List StreamEvent
events =
    event 1 30 (some "r") (response (record { emitted_ids = []; output_skeleton = [] }))
    ∷ event 2 10 (some "r") (
        request (record {
          new_from = 0;
          last_identity = none;
          previous_identity = none;
          trailing = [];
          result_ids = [];
          starts_turn = true;
          label = none;
        }))
    ∷ []

event_position-derive_example :
    (location : EventLocation) × (e : Exchange) × (i : ℕ) × (event_position (derive events) 1
      ≡ some location)
    × (get_elem? (group_exchanges events) i ≡ some e)
    × (contains e.event_pks 1 ≡ true)
    × (location.exchange ≡ e.id)
event_position-derive_example = event_position-derive events 1 refl

segment_run-derive_from_example :
    (run : SegmentRun) × (segment_run (derive_from sample_exchanges) "b" ≡ some run)
    × (first (map (λ (x : SegmentExchange). x.id) run.exchanges) ≡ some "b")
segment_run-derive_from_example = segment_run-derive_from sample_exchanges 1 continuing refl
