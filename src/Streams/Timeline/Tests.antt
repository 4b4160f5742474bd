-- ===== src/Streams/Timeline/Tests.antt =====
-- timeline.rs on executors with and without declared parents.
use abyss_backend.Common.{ℕ, String, true, List, [], ◌∷◌, Option, none, some, ◌≡◌, refl, nat_eq}
use abyss_backend.Streams.Sample.{sample_exchanges}
use abyss_backend.Streams.Structure.{derive_from}
use abyss_backend.Streams.Timeline.{
  Executor, Placing, parent_of, drain, enter, depth_first, take_slots, started_first,
  SessionTurnsResponse, session_turns,
}
use abyss_backend.Streams.Timeline.Order.{Listing, depth_first-Listing}
use abyss_backend.Streams.Timeline.Nodes.{IsTurnView, session_turns-total}

-- The first executor's parent comes later, and the last two are each other's.
abbrev parents : List (Option ℕ)
parents = some 1 ∷ none ∷ some 1 ∷ some 4 ∷ some 3 ∷ []

depth_first-parents :
    depth_first parents
    ≡ some
        (record { order = 1 ∷ 0 ∷ 2 ∷ 3 ∷ 4 ∷ []; placed = true ∷ true ∷ true ∷ true ∷ true ∷ [] })
unfolding depth_first enter drain
depth_first-parents = refl

depth_first-Listing_example :
    (s : Placing) × (depth_first parents ≡ some s) × Listing parents s.order
depth_first-Listing_example = depth_first-Listing parents

abbrev executor : Option String → Option String → ℕ → Executor
executor subagent_id parent_subagent_id segment = record {
  subagent_id = subagent_id;
  parent_subagent_id = parent_subagent_id;
  main = segment ∷ [];
  side = [];
}

abbrev executors : List Executor
executors =
    executor none none 0
    ∷ executor (some "inner") (some "outer") 1
    ∷ executor (some "outer") none 2
    ∷ []

started_first_executors :
    started_first executors
    ≡ some (
        executor none none 0
        ∷ executor (some "outer") none 2
        ∷ executor (some "inner") (some "outer") 1
        ∷ [])
unfolding started_first depth_first enter drain take_slots parent_of
started_first_executors = refl

session_turns-total_example :
    (response : SessionTurnsResponse) × (session_turns (derive_from sample_exchanges) 7
      ≡ some response)
    × IsTurnView (derive_from sample_exchanges) response.turns
session_turns-total_example = session_turns-total (derive_from sample_exchanges) 7
