-- ===== src/Usage/Segments.antt =====
-- The exchanges of a segment with their events: usage/segments.rs.
use abyss_backend.Common.{
  ℕ, ℤ, String, List, [], ◌∷◌, Option, none, some, nat_eq, lookup, without, or_else, map_option,
  Result, ok, ◌>>=◌,
}
use abyss_backend.Errors.{AppError}
use abyss_backend.Search.Text.{Text}
use abyss_backend.Streams.Answers.{SegmentExchange, SegmentRun}
use abyss_backend.Usage.Preview.{PreviewQuery, Window, ConversationPreview, parse, preview}
use abyss_backend.Usage.Events.{EventTokenUsage, UsageEventResponse}
pub mod Filled
mod Tests

pub record SegmentQuery : Type 0 where
  pub entries : Option Text
  pub text_preview : Option ℕ

pub record ValidatedSegmentQuery : Type 0 where
  pub window : Window

-- `SegmentQuery::validate`
unfoldable pub validate : (Text → String) → SegmentQuery → Result AppError ValidatedSegmentQuery
unfolding parse
validate invalid query =
    parse invalid (record { entries = query.entries; text_preview = query.text_preview })
    >>= λ window. ok (record { window = window })

pub record TokenCounts : Type 0 where
  pub input : ℤ
  pub output : ℤ
  pub cache_read : ℤ
  pub cache_write : ℤ
  pub reasoning : ℤ
  pub total : ℤ

-- `TokenCounts::of`
abbrev pub counts_of : UsageEventResponse → TokenCounts
counts_of event = record {
  input = event.token_usage.input_tokens;
  output = event.token_usage.output_tokens;
  cache_read = event.token_usage.cache_read_tokens;
  cache_write = event.token_usage.cache_write_tokens;
  reasoning = event.token_usage.reasoning_tokens;
  total = event.token_usage.total_tokens;
}

pub record SegmentExchangeResponse : Type 0 where
  pub exchange : SegmentExchange
  pub requested_at : Option ℕ
  pub responded_at : Option ℕ
  pub model : Option Text
  pub request_tokens : Option TokenCounts
  pub response_tokens : Option TokenCounts
  pub request : Option ConversationPreview
  pub response : Option ConversationPreview

pub record SegmentResponse : Type 0 where
  pub session_pk : ℕ
  pub segment : String
  pub exchanges : List SegmentExchangeResponse

abbrev pub push_pk : Option ℕ → List ℕ → List ℕ
push_pk none pks = pks
push_pk (some pk) pks = pk ∷ pks

abbrev pub exchange_pks : List SegmentExchange → List ℕ
exchange_pks [] = []
exchange_pks (exchange ∷ exchanges) =
    push_pk exchange.request_pk (push_pk exchange.response_pk (exchange_pks exchanges))

unfoldable pub run_event_pks : SegmentRun → List ℕ
run_event_pks run = exchange_pks run.exchanges

abbrev pub Events : Type 0
Events = List (ℕ × UsageEventResponse)

-- `pk.and_then(|pk| events.remove(&pk))`: what is found, and what is left.
unfoldable pub take_event : Option ℕ → Events → Option UsageEventResponse × Events
take_event none events = (none, events)
take_event (some pk) events = (lookup pk events, without pk events)

unfoldable pub exchange_response :
    Window
    → SegmentExchange
    → Option UsageEventResponse
    → Option UsageEventResponse
    → SegmentExchangeResponse
unfolding preview
exchange_response window exchange request response = record {
  exchange = exchange;
  requested_at = map_option (λ (event : UsageEventResponse). event.observed_at) request;
  responded_at = map_option (λ (event : UsageEventResponse). event.observed_at) response;
  model = map_option (λ (event : UsageEventResponse). event.model) (or_else request response);
  request_tokens = map_option counts_of request;
  response_tokens = map_option counts_of response;
  request = map_option (λ (event : UsageEventResponse). preview event.entries window) request;
  response = map_option (λ (event : UsageEventResponse). preview event.entries window) response;
}

-- The closure of the map over the exchanges, with the events that are left.
unfoldable pub fill : Window → List SegmentExchange → Events → List SegmentExchangeResponse
unfolding take_event exchange_response
fill window [] events = []
fill window (exchange ∷ exchanges) events =
    let (request, rest) = take_event exchange.request_pk events in
    let (response, left) = take_event exchange.response_pk rest in
    exchange_response window exchange request response ∷ fill window exchanges left

unfoldable pub segment_response : ℕ → SegmentRun → Events → Window → SegmentResponse
unfolding fill
segment_response session_pk run events window = record {
  session_pk = session_pk;
  segment = run.segment;
  exchanges = fill window run.exchanges events;
}
