-- ===== src/Streams/Exchanges/Tests.antt =====
-- `group_exchanges` of base.rs on a few events.
use mathlib.Core.List.{Perm}
use abyss_backend.Common.{
  ℕ, ◌≤◌, String, true, List, [], ◌∷◌, map, Option, none, some, ◌≡◌, refl, Sorted, nat_eq,
  string_eq,
}
use abyss_backend.Streams.Events.{EventFacts, request, response, StreamEvent}
use abyss_backend.Streams.Exchanges.{
  Exchange, declare, add_side, add, new_exchange, push_exchange, group_event, group_events,
  group_exchanges, earlier_exchange,
}
use abyss_backend.Streams.Exchanges.Counting.{all_pks, count_response}
use abyss_backend.Streams.Exchanges.Pairing.{group_exchanges-Paired}

abbrev event : ℕ → ℕ → Option String → EventFacts → StreamEvent
event pk time response_id facts = record {
  pk = pk;
  event_id = "event";
  observed_at = time;
  response_id = response_id;
  previous_response_id = none;
  subagent_id = none;
  parent_subagent_id = none;
  turn_id = none;
  facts = facts;
}

abbrev asks : EventFacts
asks = request (record {
  new_from = 0;
  last_identity = none;
  previous_identity = none;
  trailing = [];
  result_ids = [];
  starts_turn = true;
  label = none;
})

abbrev answers : EventFacts
answers = response (record { emitted_ids = []; output_skeleton = [] })

-- A response that is observed before its request, and an event that names no response.
abbrev events : List StreamEvent
events = event 1 30 (some "r") answers ∷ event 2 10 (some "r") asks ∷ event 3 20 none asks ∷ []

abbrev summary : Exchange → String × List ℕ × ℕ × ℕ
summary e = (e.id, e.event_pks, e.at_time, e.end)

group_exchanges-events :
    map summary (group_exchanges events)
    ≡ ("r", 1 ∷ 2 ∷ [], 10, 30) ∷ ("event", 3 ∷ [], 20, 20) ∷ []
unfolding group_exchanges group_events group_event push_exchange new_exchange add add_side declare
group_exchanges-events = refl

group_exchanges-Paired_example :
    Perm (1 ∷ 2 ∷ 3 ∷ []) (all_pks (group_exchanges events))
    × ((id : String) → count_response id (group_exchanges events) ≤ 1)
    × Sorted earlier_exchange (group_exchanges events)
group_exchanges-Paired_example = group_exchanges-Paired events
