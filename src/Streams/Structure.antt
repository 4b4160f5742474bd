-- ===== src/Streams/Structure.antt =====
-- usage/streams.rs: the structure of one session.
use abyss_backend.Common.{
  ℕ, min, max, String, List, [], ◌∷◌, map, Option, none, some, string_eq, nat_eq, length, get_elem?,
  get_or, first, lookup, insert, for_each, to_option, unwrap_or, and_then, map_option, map_or,
}
use abyss_backend.Streams.Events.{Label, RequestFacts, StreamEvent}
use abyss_backend.Streams.Facts.{label_from_columns}
use abyss_backend.Streams.Exchanges.{Side, Exchange, group_exchanges}
use abyss_backend.Streams.Bases.{BaseRule, Base, ByResponse, base_at, emitters, find_bases}
use abyss_backend.Streams.Turns.{Turns, assign, number}
use abyss_backend.Streams.Segmentation.{SegmentKind, Segment, Segmentation, cut}

-- `EntryLabel`
pub record EntryLabel : Type 0 where
  pub event_pk : ℕ
  pub entry_index : ℕ
  pub text : String
  pub length : ℕ

abbrev entry_label : ℕ → Label → EntryLabel
entry_label pk label = record {
  event_pk = pk;
  entry_index = label.index;
  text = label.text;
  length = label.length;
}

-- `EntryLabel::from_columns`
unfoldable pub entry_label_from_columns :
    Option ℕ → Option ℕ → Option String → Option ℕ → Option EntryLabel
unfolding label_from_columns
entry_label_from_columns event_pk entry_index text length =
    and_then (label_from_columns entry_index text length)
      λ label. map_option (λ pk. entry_label pk label) event_pk

pub record StreamSegment : Type 0 where
  pub head : String
  pub kind : SegmentKind
  pub parent : Option String
  pub forked_from : Option String
  pub start : ℕ
  pub end : ℕ
  pub exchange_count : ℕ
  pub label : Option EntryLabel
  pub turn_id : Option String
  pub turn : Option ℕ
  pub subagent_id : Option String

pub record StreamSummary : Type 0 where
  pub exchanges : ℕ
  pub turns : ℕ
  pub segments : ℕ

pub record SessionStructure : Type 0 where
  pub exchanges : List Exchange
  pub bases : List Base
  pub turns : Turns
  pub segmentation : Segmentation
  pub segments : List StreamSegment
  pub summary : StreamSummary
  pub exchange_by_id : List (String × ℕ)
  pub event_to_exchange : List (ℕ × ℕ)

-- 1970-01-01T00:00:00Z, the default of `DateTime<Utc>`, in nanoseconds from -262143-01-01.
abbrev pub epoch : ℕ
epoch = 8334601228800000000000

-- `.min().unwrap_or_default()` and `.max().unwrap_or_default()`
abbrev pub earliest : List ℕ → ℕ
earliest [] = epoch
earliest (t ∷ []) = t
earliest (t ∷ u ∷ ts) = min t (earliest (u ∷ ts))

abbrev pub latest_time : List ℕ → ℕ
latest_time [] = epoch
latest_time (t ∷ []) = t
latest_time (t ∷ u ∷ ts) = max t (latest_time (u ∷ ts))

-- Read at an index of the session's exchanges: an index out of range, which would panic, gives
-- the default.
abbrev pub read_at {ℓ} : {A : Type ℓ} → (Exchange → A) → A → List Exchange → ℕ → A
read_at field default exchanges index = map_or default field (get_elem? exchanges index)

abbrev pub id_at : List Exchange → ℕ → String
id_at = read_at (λ exchange. exchange.id) ""

abbrev pub members_of : Segmentation → ℕ → List ℕ
members_of segmentation segment =
    map_or [] (λ (s : Segment). s.exchanges) (get_elem? segmentation.segments segment)

-- `SessionStructure::label`
unfoldable pub label_at : List Exchange → ℕ → Option EntryLabel
label_at exchanges exchange = and_then (get_elem? exchanges exchange) λ e.
    and_then e.request
      λ (request : Side RequestFacts). map_option (entry_label request.pk) request.facts.label

-- `SessionStructure::turn`
unfoldable pub turn_at : Turns → ℕ → Option String × Option ℕ
unfolding number
turn_at turns exchange =
    map_or (none, none) (λ turn. (some (get_or turns.ids turn ""), some (number turn)))
      (get_or turns.of exchange none)

-- `SessionStructure::base`
abbrev pub base_index : List Base → ℕ → Option ℕ
base_index bases exchange =
    map_option (λ (b : ℕ × BaseRule). b.0) (to_option (base_at bases exchange))

-- `SessionStructure::segment`
unfoldable pub describe_segment :
    List Exchange → List Base → Turns → Segmentation → Segment → StreamSegment
unfolding label_at turn_at
describe_segment exchanges bases turns segmentation segment =
    let head = unwrap_or (first segment.exchanges) 0 in
    record {
      head = id_at exchanges head;
      kind = segment.kind;
      parent =
          and_then segment.parent
            λ parent. map_option (id_at exchanges) (first (members_of segmentation parent));
      forked_from =
          and_then segment.parent (λ _. map_option (id_at exchanges) (base_index bases head));
      start = earliest (map (read_at (λ e. e.at_time) 0 exchanges) segment.exchanges);
      end = latest_time (map (read_at (λ e. e.end) 0 exchanges) segment.exchanges);
      exchange_count = length segment.exchanges;
      label = label_at exchanges head;
      turn_id = (turn_at turns head).0;
      turn = (turn_at turns head).1;
      subagent_id = read_at (λ e. e.subagent_id) none exchanges head;
    }

-- The exchange of each response, the last one where several share it.
unfoldable pub index_responses : List Exchange → ByResponse
index_responses exchanges =
    for_each
      (λ index (exchange : Exchange) known.
        map_or known (λ response_id. insert response_id index known) exchange.response_id)
      0 exchanges []

-- The exchange of each id, the first one where several share it.
unfoldable pub index_ids : List Exchange → List (String × ℕ)
index_ids exchanges =
    for_each
      (λ index (exchange : Exchange) known.
        map_or (insert exchange.id index known) (λ _. known) (lookup exchange.id known))
      0 exchanges []

unfoldable pub index_pks : ℕ → List ℕ → List (ℕ × ℕ) → List (ℕ × ℕ)
index_pks index [] known = known
index_pks index (pk ∷ pks) known = index_pks index pks (insert pk index known)

-- The exchange of each event.
unfoldable pub index_events : List Exchange → List (ℕ × ℕ)
unfolding index_pks
index_events exchanges =
    for_each (λ index (exchange : Exchange) known. index_pks index exchange.event_pks known) 0
      exchanges []

-- `std::mem::take(&mut exchange.event_pks)`
abbrev pub take_pks : Exchange → Exchange
take_pks exchange = record exchange { event_pks = [] }

-- `SessionStructure::derive`, from its exchanges on.
unfoldable pub derive_from : List Exchange → SessionStructure
unfolding index_responses index_ids index_events emitters find_bases assign cut describe_segment
derive_from exchanges =
    let bases = find_bases exchanges (index_responses exchanges) (emitters exchanges) in
    let turns = assign exchanges bases in
    let segmentation = cut exchanges bases turns in
    let taken = map take_pks exchanges in
    record {
      exchanges = taken;
      bases = bases;
      turns = turns;
      segmentation = segmentation;
      segments = map (describe_segment taken bases turns segmentation) segmentation.segments;
      summary = record {
        exchanges = length exchanges;
        turns = length turns.ids;
        segments = length segmentation.segments;
      };
      exchange_by_id = index_ids exchanges;
      event_to_exchange = index_events exchanges;
    }

-- `SessionStructure::derive`
unfoldable pub derive : List StreamEvent → SessionStructure
unfolding group_exchanges derive_from
derive events = derive_from (group_exchanges events)
