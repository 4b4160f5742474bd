-- ===== src/Projection/Hydration.antt =====
-- Search results from the matches and what PostgreSQL holds of their sessions:
-- storage/postgres/search/mod.rs, with `SessionSearchResult`, `SessionSearchMatch` and
-- `SessionSearchResponse` of search/mod.rs.
use mathlib.Core.List.{filter_map}
use abyss_backend.Common.{
  without, ℕ, ◌*◌, ◌-◌, ◌^◌, min, Bool, true, false, ◌||◌, List, [], ◌∷◌, map, Option, none, some,
  ltb, leb, ◌==◌, nat_eq, list_eq, if◌then◌else◌, lookup, keep, not, contains, sort_by, map_option,
}
use abyss_backend.Search.Text.{Text}
use abyss_backend.Search.Text.Ordering.{text_le}
use abyss_backend.Search.Fragment.{FragmentSegment}
use abyss_backend.Streams.Events.{Label}
use abyss_backend.Streams.Answers.{EventLocation}
use abyss_backend.Projection.Markers.{parse_fragment}
use abyss_backend.Projection.Page.{MatchedEvent, SessionMatches, SearchMatchPage}
pub mod Sessions

-- `SearchSessionDetails`: what is read of the session and its device.
pub record SearchSessionDetails : Type 0 where
  pub id : ℕ
  pub session_id : Text
  pub agent_name : Text
  pub agent_version : Option Text
  pub started_at : ℕ
  pub ended_at : Option ℕ
  pub host_name : Text
  pub platform : Text
  pub title : Option Label

-- The fragments are those of `parse_fragment`, on its fuel.
pub record SessionSearchMatch : Type 0 where
  pub event_pk : ℕ
  pub location : Option EventLocation
  pub event_type : Text
  pub llm_provider : Text
  pub llm_model : Text
  pub observed_at : ℕ
  pub new : Bool
  pub fragments : List (Option (List FragmentSegment))

pub record SessionSearchResult : Type 0 where
  pub session_pk : ℕ
  pub session_id : Text
  pub title : Option Label
  pub agent_name : Text
  pub agent_version : Option Text
  pub host_name : Text
  pub platform : Text
  pub started_at : ℕ
  pub ended_at : Option ℕ
  pub providers : List Text
  pub models : List Text
  pub match_count : ℕ
  pub new_match_count : ℕ
  pub matches : List SessionSearchMatch

pub record SessionSearchResponse : Type 0 where
  pub query : Text
  pub total_sessions : ℕ
  pub page : ℕ
  pub page_size : ℕ
  pub has_more : Bool
  pub items : List SessionSearchResult

-- `collect::<HashSet<_>>()`
abbrev distinct_texts : List Text → List Text
distinct_texts [] = []
distinct_texts (text ∷ texts) =
    let rest = distinct_texts texts in if contains rest text then rest else text ∷ rest

unfoldable pub sorted_set : List Text → List Text
unfolding text_le
sorted_set texts = sort_by text_le (distinct_texts texts)

unfoldable pub search_match : MatchedEvent → SessionSearchMatch
search_match event = record {
  event_pk = event.event_pk;
  location = none;
  event_type = event.event_type;
  llm_provider = event.llm_provider;
  llm_model = event.llm_model;
  observed_at = event.observed_at;
  new = true;
  fragments = map parse_fragment event.fragments;
}

unfoldable pub search_result : SessionMatches → SearchSessionDetails → SessionSearchResult
unfolding sorted_set search_match
search_result matches details = record {
  session_pk = details.id;
  session_id = details.session_id;
  title = details.title;
  agent_name = details.agent_name;
  agent_version = details.agent_version;
  host_name = details.host_name;
  platform = details.platform;
  started_at = details.started_at;
  ended_at = details.ended_at;
  providers = sorted_set (map (λ (event : MatchedEvent). event.llm_provider) matches.events);
  models = sorted_set (map (λ (event : MatchedEvent). event.llm_model) matches.events);
  match_count = matches.match_count;
  new_match_count = matches.match_count;
  matches = map search_match matches.events;
}

abbrev pub Details : Type 0
Details = List (ℕ × SearchSessionDetails)

abbrev push_result :
    Option SessionSearchResult → List SessionSearchResult → List SessionSearchResult
push_result none items = items
push_result (some item) items = item ∷ items

-- The closure of `filter_map`, which takes each session's details at most once.
unfoldable pub hydrate_sessions : Details → List SessionMatches → List SessionSearchResult
unfolding search_result
hydrate_sessions details [] = []
hydrate_sessions details (matches ∷ sessions) =
    push_result (map_option (search_result matches) (lookup matches.session_pk details))
      (hydrate_sessions (without matches.session_pk details) sessions)

-- `SearchExecution::session_ids`
unfoldable pub session_ids : SearchMatchPage → List ℕ
session_ids page = map (λ (matches : SessionMatches). matches.session_pk) page.sessions

abbrev u64_max : ℕ
u64_max = 2 ^ 64

unfoldable pub hydrate : Text → ℕ → ℕ → SearchMatchPage → Details → SessionSearchResponse
unfolding hydrate_sessions
hydrate query page page_size matches details = record {
  query = query;
  total_sessions = matches.total_sessions;
  page = page;
  page_size = page_size;
  has_more = ltb (min (page * page_size) (u64_max - 1)) matches.total_sessions;
  items = hydrate_sessions details matches.sessions;
}
