-- ===== src/Usage/Locations.antt =====
-- What is read from the structures of several sessions: storage/event_locations.rs, and
-- `summary_turns` of usage/mod.rs. `load` derives a session's structure within one read snapshot, so
-- it is a function of the session.
use mathlib.Core.List.{filter_map}
use abyss_backend.Common.{
  ℕ, ◌+◌, Bool, true, false, List, [], ◌∷◌, map, Option, none, some, nat_eq, length, contains,
  insert, lookup, and_then, if◌then◌else◌, Result, ok, err, ◌>>=◌, traverse,
}
use abyss_backend.Errors.{AppError}
use abyss_backend.Streams.Structure.{SessionStructure}
use abyss_backend.Streams.Answers.{EventLocation, event_position}
use abyss_backend.Projection.Hydration.{
  SessionSearchMatch, SessionSearchResult, SessionSearchResponse,
}
use abyss_backend.Usage.Events.{UsageEventResponse}
pub mod Uncached
mod Tests

abbrev pub Structures : Type 0
Structures = List (ℕ × SessionStructure)

abbrev pub located : SessionStructure → UsageEventResponse → UsageEventResponse
located structure event = record event { location = event_position structure event.id }

abbrev pub located_match : SessionStructure → SessionSearchMatch → SessionSearchMatch
located_match structure hit = record hit { location = event_position structure hit.event_pk }

-- A hash set of the turns that the events fall in, and its size.
abbrev push_turn : Option ℕ → List ℕ → List ℕ
push_turn none turns = turns
push_turn (some turn) turns = if contains turns turn then turns else turn ∷ turns

abbrev pub turn_of : SessionStructure → ℕ → Option ℕ
turn_of structure event_pk =
    and_then (event_position structure event_pk) (λ (location : EventLocation). location.turn)

unfoldable pub turns_of : SessionStructure → List ℕ → List ℕ
turns_of structure [] = []
turns_of structure (event_pk ∷ events) =
    push_turn (turn_of structure event_pk) (turns_of structure events)

abbrev pub distinct_turns : SessionStructure → List ℕ → ℕ
distinct_turns structure events = length (turns_of structure events)

module _ (load : ℕ → Result AppError SessionStructure) where
  -- The entry of a session, which is loaded where it is vacant.
  unfoldable pub structure_of : ℕ → Structures → Result AppError (SessionStructure × Structures)
  structure_of session_pk structures = elim (lookup session_pk structures) [
    | some structure ↦ ok (structure, structures)
    | none ↦ load session_pk >>= λ structure. ok (structure, insert session_pk structure structures)
  ]

  unfoldable pub locate_from :
      Structures → List UsageEventResponse → Result AppError (List UsageEventResponse)
  unfolding structure_of
  locate_from structures [] = ok []
  locate_from structures (event ∷ events) = structure_of event.session_pk structures >>= λ found.
      locate_from found.1 events >>= λ rest. ok (located found.0 event ∷ rest)

  unfoldable pub locate_events : List UsageEventResponse → Result AppError (List UsageEventResponse)
  unfolding locate_from
  locate_events events = locate_from [] events

  unfoldable pub locate_matches :
      SessionSearchResult → List SessionSearchMatch → Result AppError SessionSearchResult
  locate_matches session [] = ok session
  locate_matches session (hit ∷ hits) = load session.session_pk >>= λ structure.
      ok (record session { matches = map (located_match structure) (hit ∷ hits) })

  unfoldable pub locate_search_matches :
      SessionSearchResponse → Result AppError SessionSearchResponse
  unfolding locate_matches
  locate_search_matches response =
      traverse (λ (session : SessionSearchResult). locate_matches session session.matches)
        response.items
      >>= λ items. ok (record response { items = items })

  -- The sessions of a group: `turns` is the sum before them.
  unfoldable pub group_turns : Structures → ℕ → List (ℕ × List ℕ) → Result AppError (ℕ × Structures)
  unfolding structure_of turns_of
  group_turns structures turns [] = ok (turns, structures)
  group_turns structures turns ((session_pk, events) ∷ sessions) =
      structure_of session_pk structures >>= λ found.
      group_turns found.1 (turns + distinct_turns found.0 events) sessions

  -- The loop over the groups. `decode` reads the column of a group.
  unfoldable pub summary_from {ℓ} :
      {Column : Type ℓ}
      → (Column → Result AppError (List (ℕ × List ℕ)))
      → Structures
      → List Column
      → Result AppError (List ℕ)
  unfolding group_turns
  summary_from decode structures [] = ok []
  summary_from decode structures (column ∷ columns) = decode column >>= λ sessions.
      group_turns structures 0 sessions >>= λ counted.
      summary_from decode counted.1 columns >>= λ rest. ok (counted.0 ∷ rest)

  unfoldable pub summary_turns {ℓ} :
      {Column : Type ℓ}
      → (Column → Result AppError (List (ℕ × List ℕ)))
      → List Column
      → Result AppError (List ℕ)
  unfolding summary_from
  summary_turns decode columns = summary_from decode [] columns
