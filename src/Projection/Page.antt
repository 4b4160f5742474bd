-- ===== src/Projection/Page.antt =====
-- A page of matches as Elasticsearch gives it: `SearchMatchPage` and its reading in
-- storage/postgres/search/elasticsearch.rs, from the decoded response.
use abyss_backend.Common.{
  ℕ, String, List, [], ◌++◌, map, Option, string_eq, take, lookup, unwrap_or, Result, ok, ◌>>=◌,
  traverse, ok_or,
}
use abyss_backend.Search.Text.{Text, codes}
use abyss_backend.Projection.Bulk.{SearchClientError, protocol}

pub data RawTotalHits : Type 0 where
  number : ℕ → RawTotalHits
  object : ℕ → RawTotalHits

abbrev pub value : RawTotalHits → ℕ
value (number n) = n
value (object n) = n

pub record RawMatchedHit : Type 0 where
  pub event_pk : ℕ
  pub event_type : Text
  pub llm_provider : Text
  pub llm_model : Text
  pub observed_at : ℕ
  pub highlight : List (String × List Text)

pub record RawMatchedHits : Type 0 where
  pub total : RawTotalHits
  pub hits : List RawMatchedHit

pub record RawOuterHit : Type 0 where
  pub session_pk : ℕ
  pub inner_hits : List (String × RawMatchedHits)

-- `session_count` is the value of the aggregation, where the response has aggregations.
pub record RawSearchResponse : Type 0 where
  pub session_count : Option ℕ
  pub hits : List RawOuterHit

pub record MatchedEvent : Type 0 where
  pub event_pk : ℕ
  pub event_type : Text
  pub llm_provider : Text
  pub llm_model : Text
  pub observed_at : ℕ
  pub fragments : List Text

pub record SessionMatches : Type 0 where
  pub session_pk : ℕ
  pub match_count : ℕ
  pub events : List MatchedEvent

pub record SearchMatchPage : Type 0 where
  pub total_sessions : ℕ
  pub sessions : List SessionMatches

abbrev field_fragments : List (String × List Text) → String → List Text
field_fragments highlights field = unwrap_or (lookup field highlights) []

unfoldable pub ordered_fragments : List (String × List Text) → List Text
ordered_fragments highlights = take 2 (
    field_fragments highlights "content"
    ++ (field_fragments highlights "tool_names" ++ field_fragments highlights "tool_content"))

unfoldable pub matched_event : RawMatchedHit → MatchedEvent
unfolding ordered_fragments
matched_event event = record {
  event_pk = event.event_pk;
  event_type = event.event_type;
  llm_provider = event.llm_provider;
  llm_model = event.llm_model;
  observed_at = event.observed_at;
  fragments = ordered_fragments event.highlight;
}

unfoldable pub session_matches : RawOuterHit → Result SearchClientError SessionMatches
unfolding matched_event
session_matches hit =
    ok_or (lookup "matches" hit.inner_hits)
      (protocol (codes "collapsed search hit omitted matches inner_hits"))
    >>= λ matches. ok (record {
      session_pk = hit.session_pk;
      match_count = value matches.total;
      events = map matched_event matches.hits;
    })

unfoldable pub read_page : RawSearchResponse → Result SearchClientError SearchMatchPage
unfolding session_matches
read_page response = traverse session_matches response.hits >>= λ sessions.
    ok (record { total_sessions = unwrap_or response.session_count 0; sessions = sessions })
