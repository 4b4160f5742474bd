-- ===== src/Search/Ranking.antt =====
-- search/matching/ranking.rs: which hits are new, how matching sessions and events are ordered, and
-- what a page of search results shows. The two hash maps are read in the order of insertion; the
-- sorts that follow compare the keys last, and the hits of a session share its session id.
pub mod Fragments
pub mod Order
pub mod Shown
use abyss_backend.Common.{
  ℕ, zero, suc, ◌+◌, ◌^◌, min, max, Bool, true, false, not, ◌&&◌, ◌||◌, List, [], ◌∷◌, ◌++◌, map,
  Option, none, some, ltb, leb, ◌==◌, nat_eq, list_eq, ◌-◌, if◌then◌else◌, length, take, drop, any,
  keep, first, lookup, insert, contains, sort_by, unwrap_or, map_option, map_or,
}
use mathlib.Core.List.{foldl, flat_map}
use abyss_backend.Search.Text.{Text}
use abyss_backend.Search.Pieces.{PieceField, name, text}

abbrev pub matches_per_session : ℕ
matches_per_session = 3

abbrev pub fragments_per_match : ℕ
fragments_per_match = 2

pub data UsageEventType : Type 0 where
  request response : UsageEventType

-- `is_new`
unfoldable pub is_new : UsageEventType → Option ℕ → ℕ → Bool
is_new response new_from entry_index = true
is_new request new_from entry_index = leb (unwrap_or new_from 0) entry_index

pub record SearchHit : Type 0 where
  pub session_pk : ℕ
  pub session_id : Text
  pub event_pk : ℕ
  pub observed_at : ℕ
  pub entry_index : ℕ
  pub field : PieceField
  pub text_id : ℕ
  pub new : Bool

pub record RankedMatch : Type 0 where
  pub event_pk : ℕ
  pub observed_at : ℕ
  pub new : Bool
  pub fragment_texts : List ℕ

pub record RankedSession : Type 0 where
  pub session_pk : ℕ
  pub match_count : ℕ
  pub new_match_count : ℕ
  pub matches : List RankedMatch

pub record RankedPage : Type 0 where
  pub total_sessions : ℕ
  pub sessions : List RankedSession

pub record PieceHit : Type 0 where
  pub new : Bool
  pub entry_index : ℕ
  pub field : PieceField
  pub text_id : ℕ

pub record EventHits : Type 0 where
  pub session_pk : ℕ
  pub session_id : Text
  pub observed_at : ℕ
  pub hits : List PieceHit

-- `EventHits::has_new`
unfoldable pub has_new : EventHits → Bool
has_new event = any (λ (hit : PieceHit). hit.new) event.hits

-- `PieceField` orders `name` first.
abbrev pub field_le : PieceField → PieceField → Bool
field_le name b = true
field_le text name = false
field_le text text = true

-- The order of `(!hit.new, hit.entry_index, hit.field)`.
abbrev pub hit_le : PieceHit → PieceHit → Bool
hit_le a b =
    if a.new
    then not b.new
      || ltb a.entry_index b.entry_index
      || a.entry_index == b.entry_index && field_le a.field b.field
    else not b.new
      && (ltb a.entry_index b.entry_index
          || a.entry_index == b.entry_index && field_le a.field b.field)

-- The loop of `EventHits::fragment_texts`.
unfoldable pub collect_texts : List PieceHit → List ℕ → List ℕ
collect_texts [] texts = texts
collect_texts (hit ∷ hits) texts =
    let old = collect_texts hits texts in
    let new = collect_texts hits (texts ++ hit.text_id ∷ []) in
    if length texts == fragments_per_match
    then texts
    else if contains texts hit.text_id
    then old
    else new

-- `EventHits::fragment_texts`
unfoldable pub fragment_texts : EventHits → List ℕ
unfolding collect_texts
fragment_texts event = collect_texts (sort_by hit_le event.hits) []

abbrev pub new_event : SearchHit → EventHits
new_event hit = record {
  session_pk = hit.session_pk;
  session_id = hit.session_id;
  observed_at = hit.observed_at;
  hits = [];
}

abbrev pub piece_hit : SearchHit → PieceHit
piece_hit hit = record {
  new = hit.new;
  entry_index = hit.entry_index;
  field = hit.field;
  text_id = hit.text_id;
}

-- `events.entry(event_pk).or_insert_with(…).hits.push(…)`
unfoldable pub add_hit : List (ℕ × EventHits) → SearchHit → List (ℕ × EventHits)
add_hit events hit =
    let event = unwrap_or (lookup hit.event_pk events) (new_event hit) in
    insert hit.event_pk (record event { hits = event.hits ++ piece_hit hit ∷ [] }) events

-- `sessions.entry(event.session_pk).or_default().push((event_pk, event))`
unfoldable pub add_event :
    List (ℕ × List (ℕ × EventHits)) → ℕ × EventHits → List (ℕ × List (ℕ × EventHits))
add_event sessions (event_pk, event) =
    insert event.session_pk
      (unwrap_or (lookup event.session_pk sessions) [] ++ (event_pk, event) ∷ []) sessions

-- The hits of each event, and the events of each session.
unfoldable pub grouped : List SearchHit → List (ℕ × List (ℕ × EventHits))
unfolding add_hit add_event
grouped hits = foldl add_event [] (foldl add_hit [] hits)

-- `events.iter().map(|(_, event)| event.observed_at).max()`
abbrev pub latest : List (ℕ × EventHits) → Option ℕ
latest [] = none
latest ((pk, event) ∷ events) =
    some (map_or event.observed_at (max event.observed_at) (latest events))

pub record SessionKey : Type 0 where
  pub latest_at : Option ℕ
  pub session_id : Text
  pub session_pk : ℕ

abbrev pub session_key : ℕ × List (ℕ × EventHits) → SessionKey
session_key (session_pk, events) = record {
  latest_at = latest events;
  session_id = map_or [] (λ (e : ℕ × EventHits). e.1.session_id) (first events);
  session_pk = session_pk;
}

abbrev pub text_lt : Text → Text → Bool
text_lt [] [] = false
text_lt [] (b ∷ bs) = true
text_lt (a ∷ as') [] = false
text_lt (a ∷ as') (b ∷ bs) = ltb a b || a == b && text_lt as' bs

abbrev pub time_lt : Option ℕ → Option ℕ → Bool
time_lt a none = false
time_lt none (some b) = true
time_lt (some a) (some b) = ltb a b

-- The latest match first, then by session id, then by key.
abbrev pub key_le : SessionKey → SessionKey → Bool
key_le a b =
    time_lt b.latest_at a.latest_at
    || not (time_lt a.latest_at b.latest_at)
      && (text_lt a.session_id b.session_id
          || not (text_lt b.session_id a.session_id) && leb a.session_pk b.session_pk)

abbrev pub session_le : ℕ × List (ℕ × EventHits) → ℕ × List (ℕ × EventHits) → Bool
session_le a b = key_le (session_key a) (session_key b)

abbrev pub event_le : ℕ × EventHits → ℕ × EventHits → Bool
event_le (a_pk, a) (b_pk, b) =
    ltb a.observed_at b.observed_at || a.observed_at == b.observed_at && leb a_pk b_pk

-- `u64::try_from(value).unwrap_or(u64::MAX)`
abbrev pub count : ℕ → ℕ
count value = min value (2 ^ 64 - 1)

abbrev pub event_has_new : ℕ × EventHits → Bool
event_has_new (event_pk, event) = has_new event

unfoldable pub ranked_match : ℕ × EventHits → RankedMatch
unfolding has_new fragment_texts
ranked_match (event_pk, event) = record {
  event_pk = event_pk;
  observed_at = event.observed_at;
  new = has_new event;
  fragment_texts = fragment_texts event;
}

-- The events with a new hit, then the others.
unfoldable pub new_first : List (ℕ × EventHits) → List (ℕ × EventHits)
unfolding has_new
new_first events =
    keep event_has_new events ++ keep (λ (e : ℕ × EventHits). not (event_has_new e)) events

-- `rank_session`
unfoldable pub rank_session : ℕ × List (ℕ × EventHits) → RankedSession
unfolding new_first ranked_match
rank_session (session_pk, events) =
    let ordered = sort_by event_le events in
    record {
      session_pk = session_pk;
      match_count = count (length ordered);
      new_match_count = count (length (keep event_has_new ordered));
      matches = map ranked_match (take matches_per_session (new_first ordered));
    }

-- `rank_sessions`
unfoldable pub rank_sessions : List SearchHit → ℕ → ℕ → RankedPage
unfolding grouped rank_session
rank_sessions hits offset page_size =
    let sessions = sort_by session_le (grouped hits) in
    record {
      total_sessions = count (length sessions);
      sessions = map rank_session (take page_size (drop offset sessions));
    }

-- `RankedPage::session_pks`
unfoldable pub session_pks : RankedPage → List ℕ
session_pks page = map (λ (s : RankedSession). s.session_pk) page.sessions

-- `RankedPage::matches`
unfoldable pub matches : RankedPage → List RankedMatch
matches page = flat_map (λ (s : RankedSession). s.matches) page.sessions

-- `RankedPage::event_pks`
unfoldable pub event_pks : RankedPage → List ℕ
unfolding matches
event_pks page = map (λ (m : RankedMatch). m.event_pk) (matches page)
