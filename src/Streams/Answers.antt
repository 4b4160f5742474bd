-- ===== src/Streams/Answers.antt =====
-- usage/streams.rs: the answers read from the structure of a session.
pub mod Events
mod Runs
mod Tests
use abyss_backend.Common.{
  ℕ, min, max, String, Bool, List, [], ◌∷◌, map, Option, none, some, ◌==◌, string_eq, nat_eq,
  length, get_elem?, get_or, drop, first, position, lookup, insert, for_each, to_option, to_error,
  unwrap_or, and_then, map_option, map_or,
}
use abyss_backend.Streams.Events.{Label, RequestFacts, ResponseFacts, StreamEvent}
use abyss_backend.Streams.Facts.{label_from_columns}
use abyss_backend.Streams.Exchanges.{Side, Exchange, opens_turn, group_exchanges}
use abyss_backend.Streams.Bases.{
  BaseRule, NoBaseReason, Base, ByResponse, base_at, emitters, find_bases,
}
use abyss_backend.Streams.Turns.{Turns, assign, number}
use abyss_backend.Streams.Segmentation.{SegmentKind, root, Segment, Segmentation, cut}
use abyss_backend.Streams.Structure.{
  EntryLabel, entry_label_from_columns, StreamSegment, StreamSummary, SessionStructure, epoch,
  earliest, latest_time, read_at, id_at, members_of, label_at, turn_at, base_index,
  describe_segment, index_responses, index_ids, index_pks, index_events, take_pks, derive_from,
  derive,
}

pub record EventLocation : Type 0 where
  pub segment : String
  pub turn : Option ℕ
  pub segment_kind : SegmentKind
  pub exchange : String

pub record EventLocationResponse : Type 0 where
  pub session_pk : ℕ
  pub event_pk : ℕ
  pub location : EventLocation

pub record SegmentExchange : Type 0 where
  pub id : String
  pub request_pk : Option ℕ
  pub response_pk : Option ℕ
  pub base : Option String
  pub base_segment : Option String
  pub rule : Option BaseRule
  pub no_base_reason : Option NoBaseReason
  pub new_from : Option ℕ
  pub starts_turn : Bool
  pub subagent_id : Option String
  pub parent_subagent_id : Option String
  pub turn_id : Option String
  pub turn : Option ℕ

pub record SegmentRun : Type 0 where
  pub segment : String
  pub exchanges : List SegmentExchange

pub record SessionStreamsResponse : Type 0 where
  pub session_pk : ℕ
  pub segments : List StreamSegment

module _ (structure : SessionStructure) where
  open structure use {exchanges, bases, turns, segmentation}

  abbrev pub segment_of_at : ℕ → ℕ
  segment_of_at exchange = get_or segmentation.segment_of exchange 0

  -- `segment_head`
  unfoldable pub segment_head : ℕ → String
  segment_head segment = id_at exchanges (unwrap_or (first (members_of segmentation segment)) 0)

  -- `session_streams`
  unfoldable pub session_streams : ℕ → SessionStreamsResponse
  session_streams session_pk = record { session_pk = session_pk; segments = structure.segments }

  -- `exchange`
  unfoldable pub describe_exchange : ℕ → SegmentExchange
  unfolding segment_head opens_turn turn_at
  describe_exchange index =
      let base = base_index bases index in
      let request = read_at (λ e. e.request) none exchanges index in
      record {
        id = id_at exchanges index;
        request_pk = map_option (λ (r : Side RequestFacts). r.pk) request;
        response_pk =
            map_option (λ (r : Side ResponseFacts). r.pk)
              (read_at (λ e. e.response) none exchanges index);
        base = map_option (id_at exchanges) base;
        base_segment = map_option (λ b. segment_head (segment_of_at b)) base;
        rule = map_option (λ (b : ℕ × BaseRule). b.1) (to_option (base_at bases index));
        no_base_reason = to_error (base_at bases index);
        new_from = map_option (λ (r : Side RequestFacts). r.facts.new_from) request;
        starts_turn = read_at opens_turn Bool.false exchanges index;
        subagent_id = read_at (λ e. e.subagent_id) none exchanges index;
        parent_subagent_id = read_at (λ e. e.parent_subagent_id) none exchanges index;
        turn_id = (turn_at turns index).0;
        turn = (turn_at turns index).1;
      }

  -- The exchanges of a segment from the member at `at` on.
  unfoldable pub run_at : ℕ → ℕ → SegmentRun
  unfolding describe_exchange
  run_at segment at = record {
    segment = segment_head segment;
    exchanges = map describe_exchange (drop at (members_of segmentation segment));
  }

  -- `segment_run`, from the index of the exchange on.
  unfoldable pub run_from : ℕ → Option SegmentRun
  unfolding run_at
  run_from index =
      map_option (run_at (segment_of_at index))
        (position (λ member. member == index) (members_of segmentation (segment_of_at index)))

  -- `segment_run`
  unfoldable pub segment_run : String → Option SegmentRun
  unfolding run_from
  segment_run from = and_then (lookup from structure.exchange_by_id) run_from

  -- The position of an exchange.
  unfoldable pub locate : ℕ → EventLocation
  unfolding segment_head turn_at
  locate exchange = record {
    segment = segment_head (segment_of_at exchange);
    turn = (turn_at turns exchange).1;
    segment_kind =
        map_or root (λ (s : StreamSegment). s.kind)
          (get_elem? structure.segments (segment_of_at exchange));
    exchange = id_at exchanges exchange;
  }

  -- `event_position`
  unfoldable pub event_position : ℕ → Option EventLocation
  unfolding locate
  event_position event_pk = map_option locate (lookup event_pk structure.event_to_exchange)

  -- `event_location`
  unfoldable pub event_location : ℕ → ℕ → Option EventLocationResponse
  unfolding event_position
  event_location session_pk event_pk =
      map_option
        (λ location. record { session_pk = session_pk; event_pk = event_pk; location = location })
        (event_position event_pk)

  -- `event_segment`
  unfoldable pub event_segment : ℕ → Option String
  unfolding segment_head
  event_segment event_pk =
      map_option (λ exchange. segment_head (segment_of_at exchange))
        (lookup event_pk structure.event_to_exchange)
