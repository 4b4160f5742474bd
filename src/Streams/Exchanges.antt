-- ===== src/Streams/Exchanges.antt =====
-- usage/streams/base.rs: exchanges, the events of a session paired by response.
pub mod Counting
pub mod Pairing
mod Tests
use abyss_backend.Common.{
  ℕ, suc, ◌+◌, ◌-◌, max, String, Bool, true, false, ◌&&◌, ◌||◌, List, [], ◌∷◌, ◌++◌, map, Option,
  none, some, ltb, leb, ◌==◌, string_eq, nat_eq, if◌then◌else◌, length, get_elem?, set, last,
  lookup, insert, for_each, sort_by, is_some, is_none, unwrap_or, and_then, map_or, update,
}
use abyss_backend.Streams.Events.{
  RequestFacts, ResponseFacts, EventFacts, request, response, StreamEvent,
}

-- One side of an exchange as streams use it.
pub record Side (F : Type 0) : Type 0 where
  pub pk : ℕ
  pub previous_response_id : Option String
  pub facts : F

pub record Exchange : Type 0 where
  pub id : String
  pub response_id : Option String
  pub event_pks : List ℕ
  pub at_time : ℕ
  pub end : ℕ
  pub request : Option (Side RequestFacts)
  pub response : Option (Side ResponseFacts)
  pub subagent_id : Option String
  pub parent_subagent_id : Option String
  pub turn_id : Option String

-- `Exchange::declare`
unfoldable pub declare : StreamEvent → Exchange → Exchange
declare event exchange = record exchange {
  subagent_id = event.subagent_id;
  parent_subagent_id = event.parent_subagent_id;
  turn_id = event.turn_id;
}

abbrev pub side_of : {F : Type 0} → StreamEvent → F → Side F
side_of event facts = record {
  pk = event.pk;
  previous_response_id = event.previous_response_id;
  facts = facts;
}

-- The part of `Exchange::add` that depends on the event's side.
unfoldable pub add_side : StreamEvent → EventFacts → Exchange → Exchange
unfolding declare
add_side event (request facts) exchange =
    if is_none exchange.request
    then record (declare event (record exchange { at_time = event.observed_at })) {
      request = some (side_of event facts);
    }
    else exchange
add_side event (response facts) exchange =
    if is_none exchange.response
    then record (if is_none exchange.request then declare event exchange else exchange) {
      response = some (side_of event facts);
    }
    else exchange

-- `Exchange::add`
unfoldable pub add : StreamEvent → Exchange → Exchange
unfolding add_side
add event exchange = add_side event event.facts (record exchange {
  event_pks = exchange.event_pks ++ event.pk ∷ [];
  end = max exchange.end event.observed_at;
})

-- `Exchange::starts_turn`
unfoldable pub opens_turn : Exchange → Bool
opens_turn exchange = map_or false (λ (r : Side RequestFacts). r.facts.starts_turn) exchange.request

-- `Exchange::continues_context`
unfoldable pub continues_context : Exchange → Bool
continues_context exchange =
    map_or false
      (λ (r : Side RequestFacts). ltb 0 r.facts.new_from || is_some r.previous_response_id)
      exchange.request

-- An exchange with no event yet.
unfoldable pub new_exchange : StreamEvent → Exchange
new_exchange event = record {
  id = unwrap_or event.response_id event.event_id;
  response_id = event.response_id;
  event_pks = [];
  at_time = event.observed_at;
  end = event.observed_at;
  request = none;
  response = none;
  subagent_id = none;
  parent_subagent_id = none;
  turn_id = none;
}

-- What the loop of `group_exchanges` keeps.
pub record Grouping : Type 0 where
  pub exchanges : List Exchange
  pub by_response_id : List (String × ℕ)

abbrev pub no_exchanges : Grouping
no_exchanges = record { exchanges = []; by_response_id = [] }

-- A new exchange at the end, known by its response if the event names one.
unfoldable pub push_exchange : StreamEvent → Grouping → Grouping
unfolding new_exchange
push_exchange event grouping = record {
  exchanges = grouping.exchanges ++ new_exchange event ∷ [];
  by_response_id = elim event.response_id [
    | none ↦ grouping.by_response_id
    | some response_id ↦ insert response_id (length grouping.exchanges) grouping.by_response_id
  ];
}

-- One event of the loop of `group_exchanges`.
unfoldable pub group_event : StreamEvent → Grouping → Grouping
unfolding push_exchange add
group_event event grouping =
    elim (and_then event.response_id (λ id. lookup id grouping.by_response_id)) [
      | some index ↦ record grouping { exchanges = update (add event) index grouping.exchanges }
      | none ↦
          let pushed = push_exchange event grouping in
          record pushed {
            exchanges = update (add event) (length pushed.exchanges - 1) pushed.exchanges;
          }
    ]

unfoldable pub group_events : List StreamEvent → Grouping → Grouping
unfolding group_event
group_events [] grouping = grouping
group_events (event ∷ events) grouping = group_events events (group_event event grouping)

abbrev pub earlier_exchange : Exchange → Exchange → Bool
earlier_exchange a b = leb a.at_time b.at_time

-- `group_exchanges`
unfoldable pub group_exchanges : List StreamEvent → List Exchange
unfolding group_events
group_exchanges events = sort_by earlier_exchange (group_events events no_exchanges).exchanges
