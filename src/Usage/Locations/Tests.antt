-- ===== src/Usage/Locations/Tests.antt =====
-- Locations and turns of a small page.
use abyss_backend.Common.{
  ℕ, List, [], ◌∷◌, none, ◌≡◌, refl, Result, ok, err, pos, if◌then◌else◌, ◌==◌, nat_eq, traverse,
}
use abyss_backend.Errors.{AppError, not_found}
use abyss_backend.Streams.Sample.{sample_exchanges}
use abyss_backend.Streams.Structure.{SessionStructure, derive_from}
use abyss_backend.Usage.Events.{EventTokenUsage, UsageEventResponse}
use abyss_backend.Usage.Locations.{locate_events, summary_turns, locate_from, structure_of}
use abyss_backend.Usage.Locations.Uncached.{
  locate_alone, column_alone, locate_events-alone, summary_turns-alone,
}

abbrev load : ℕ → Result AppError SessionStructure
load pk = if pk == 7 then ok (derive_from sample_exchanges) else err (not_found "session")

abbrev tokens : EventTokenUsage
tokens = record {
  input_tokens = pos 0;
  output_tokens = pos 0;
  cache_read_tokens = pos 0;
  cache_write_tokens = pos 0;
  reasoning_tokens = pos 0;
  total_tokens = pos 0;
}

abbrev event : ℕ → ℕ → UsageEventResponse
event id session_pk = record {
  id = id;
  session_pk = session_pk;
  location = none;
  observed_at = 0;
  model = [];
  token_usage = tokens;
  entries = [];
}

abbrev page : List UsageEventResponse
page = event 0 7 ∷ event 2 7 ∷ []

locate_events-alone_example : locate_events load page ≡ traverse (locate_alone load) page
locate_events-alone_example = locate_events-alone load page

-- A session that cannot be loaded fails the page.
page_refused : locate_events load (event 0 8 ∷ page) ≡ err (not_found "session")
unfolding locate_events locate_from structure_of
page_refused = refl

abbrev groups : List (List (ℕ × List ℕ))
groups = ((7, 0 ∷ 5 ∷ []) ∷ []) ∷ ((7, 2 ∷ []) ∷ []) ∷ []

summary_turns-alone_example :
    summary_turns load (λ (group : List (ℕ × List ℕ)). ok group) groups
    ≡ traverse (column_alone load (λ (group : List (ℕ × List ℕ)). ok group)) groups
summary_turns-alone_example =
    summary_turns-alone load (λ (group : List (ℕ × List ℕ)). ok group) groups
