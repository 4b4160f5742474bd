-- ===== src/Projection/Tests.antt =====
-- The projection on small inputs, and its theorems on them.
use abyss_backend.Common.{
  ℕ, suc, ◌≤◌, true, false, ◌&&◌, List, [], ◌∷◌, ◌++◌, map, none, some, ◌≡◌, ◌⊎◌, ◌↔◌, refl, arith,
  length, contains, Distinct, All, is_some, lookup, to_list, nat_eq, ok, err,
}
use abyss_backend.Search.Text.{Text, codes, holds}
use abyss_backend.Search.Text.Trimming.{remove, remove_from}
use abyss_backend.Search.Fragment.{FragmentSegment}
use abyss_backend.Projection.Markers.{
  highlight_start, highlight_end, parse_fragment, sanitize_search_text, render,
}
use abyss_backend.Projection.Markers.Rendering.{parse_fragment-render}
use abyss_backend.Projection.Document.{SourceEntry, UsageEvent, max_content_characters, from_event}
use abyss_backend.Projection.Document.Bounds.{AreBounded, HasNoText, from_event-Bounded}
use abyss_backend.Projection.Bulk.{delete, BulkMessages, SearchClientError, ResponseItem}
use abyss_backend.Projection.Outbox.{
  OutboxRow, OutboxTaskResult, max_outbox_attempts, seconds, new_task, claimable, selected, claim,
  record_result, record_outcome, record_failure, retry_delay, truncate_error,
}
use abyss_backend.Projection.Outbox.Rows.{IsConsistent}
use abyss_backend.Projection.Outbox.Steps.{
  World, tick, enqueue, claim_step, record_step, Reach, here, next, empty_world,
}
use abyss_backend.Projection.Outbox.Sound.{count, Inv, empty_world-Inv}
use abyss_backend.Projection.Outbox.Invariant.{Reach-Inv, Reach-IsConsistent, Reach-retries}
use abyss_backend.Projection.Outbox.Leases.{task_ids, after, claim-Exclusive}
use abyss_backend.Projection.Worker.{PreparedOutboxTask}
use abyss_backend.Projection.Worker.Outcomes.{Aligned, apply_tasks-Aligned}
use abyss_backend.Projection.Iteration.{Round, Indexer, Settings, run}
use abyss_backend.Projection.Iteration.Refinement.{run-Reach}
use abyss_backend.Projection.Page.{SessionMatches}
use abyss_backend.Projection.Hydration.{SearchSessionDetails, hydrate_sessions}
use abyss_backend.Projection.Hydration.Sessions.{result_keys, session_keys, hydrate_sessions-shown}

-- The delays before the attempts, as the tests of the code have them.
retry_delays : map retry_delay (1 ∷ 4 ∷ 8 ∷ 100 ∷ []) ≡ 2 ∷ 16 ∷ 256 ∷ 256 ∷ []
unfolding retry_delay
retry_delays = refl

abbrev queue : World → ℕ → World
queue w event_pk = record w {
  next_id = suc w.next_id;
  rows = w.rows ++ new_task w.next_id event_pk w.now ∷ [];
}

abbrev queued : World
queued = queue (empty_world 0) 77

abbrev claimed : World
claimed = record queued { rows = (claim queued.now "worker" [] 10 queued.rows).0 }

abbrev failure : OutboxTaskResult
failure = record { id = 0; attempt_count = 0; result = err (codes "HTTP 503") }

abbrev latest : ℕ
latest = 1_000_000_000_000

abbrev failed : World
failed = record claimed {
  rows = (record_result latest claimed.now failure claimed.rows).0;
  recorded = failure.id ∷ claimed.recorded;
}

failed_steps : Reach latest (empty_world 0) failed
unfolding claim selected claimable new_task empty_world record_result record_outcome record_failure
    retry_delay truncate_error
failed_steps =
    next (next (next here (enqueue (empty_world 0) 77)) (claim_step queued "worker" [] 10))
      (record_step claimed "worker" failure ((λ e. (refl, refl)), tt) refl refl)

Reach-IsConsistent_example : All IsConsistent failed.rows
Reach-IsConsistent_example = Reach-IsConsistent latest 0 failed failed_steps

Reach-retries_example : count 0 failed.recorded ≤ max_outbox_attempts
Reach-retries_example = Reach-retries latest 0 failed failed_steps 0

queued-Inv : Inv queued
queued-Inv =
    Reach-Inv {latest = latest} (empty_world-Inv 0) (next here (enqueue (empty_world 0) 77))

row_claimed : contains (task_ids (claim queued.now "first" [] 10 queued.rows).1) 0 ≡ true
unfolding claim selected claimable new_task empty_world
row_claimed = refl

-- A new row, 100 seconds, and a claim of that row.
abbrev first_claim : World
first_claim = after queued "first" [] 10

abbrev second_row : World
second_row = queue first_claim 78

abbrev hundred_later : World
hundred_later = record second_row { now = seconds 100 }

abbrev other_claim : World
other_claim = after hundred_later "other" [] 10

other_steps : Reach latest first_claim other_claim
unfolding empty_world
other_steps =
    next (next (next here (enqueue first_claim 78)) (tick second_row (seconds 100) (omega arith)))
      (claim_step hundred_later "other" [] 10)

other_claimed : task_ids (claim (seconds 100) "other" [] 10 hundred_later.rows).1 ≡ 1 ∷ []
unfolding claim selected claimable new_task empty_world
other_claimed = refl

claim-Exclusive_example :
    contains (task_ids (claim other_claim.now "second" [] 10 other_claim.rows).1) 0 ≡ false
unfolding empty_world
claim-Exclusive_example =
    claim-Exclusive latest queued other_claim "first" "second" [] [] 10 10 0 queued-Inv row_claimed
      other_steps refl (omega arith)

abbrev row : OutboxRow
row = new_task 3 77 0

-- A lease that is over lets the next worker in.
row_claimed_again :
    task_ids (claim (seconds 121) "second" [] 10 (claim 5 "first" [] 10 (row ∷ [])).0).1 ≡ 3 ∷ []
unfolding claim selected claimable new_task
row_claimed_again = refl

abbrev messages : BulkMessages
messages = record {
  omitted = λ id. codes "omitted";
  failed = λ id status error. codes "failed";
  miscounted = λ items operations. codes "miscounted";
}

abbrev task : PreparedOutboxTask
task = record { id = 4; attempt_count = 2; operation = delete 77 }

abbrev missing : List ResponseItem
missing = ((codes "delete", record { status = 404; error = none }) ∷ []) ∷ []

apply_tasks-Aligned_example :
    Aligned messages (λ error. codes "request failed") (task ∷ []) (ok missing) true
apply_tasks-Aligned_example =
    apply_tasks-Aligned messages (λ error. codes "request failed") (task ∷ []) (ok missing) true

abbrev said : Text → SourceEntry
said text = record { role = some (codes "user"); name = none; text = some text }

abbrev event : UsageEvent
event = record {
  id = 77;
  user_id = 1;
  session_pk = 2;
  session_id = codes "session";
  agent_name = codes "agent";
  llm_provider = codes "provider";
  llm_model = codes "model";
  event_type = codes "request";
  observed_at = 0;
  entries = said (codes "run the tests") ∷ [];
}

from_event-Bounded_example :
    All (λ content. length content ≤ max_content_characters) (to_list (from_event event).content)
    × AreBounded (from_event event).tool_names
    × (((from_event event).content ≡ none) ↔ All HasNoText event.entries)
from_event-Bounded_example = from_event-Bounded event

abbrev settings : Settings
settings = record {
  worker_id = "worker";
  batch_size = 10;
  latest = latest;
  messages = messages;
  message = λ error. codes "request failed";
}

abbrev round : Round
round = record {
  events = event ∷ [];
  index_check = true;
  backfill_up = true;
  claim_up = true;
  recorded = 10;
  checked = ok tt;
  loaded = ok (event ∷ []);
  backfilled_at = 1;
  claimed_at = 2;
  recorded_at = 3;
  locked = [];
  reply = err (SearchClientError.protocol []);
}

abbrev started : Indexer
started = record { index_ready = false; backfill_complete = false; next_id = 0; table = [] }

run-Reach_example :
    (w : World) × Reach latest (empty_world 0) w
    × (w.next_id ≡ (run settings (round ∷ []) started).next_id)
    × (w.rows ≡ (run settings (round ∷ []) started).table)
unfolding empty_world
run-Reach_example =
    run-Reach settings (round ∷ []) started (empty_world 0) (empty_world-Inv 0)
      (omega arith, omega arith, omega arith, tt) refl refl

abbrev marked : Text
marked = codes "before " ++ (highlight_start ++ (codes "match" ++ highlight_end))

parse_fragment-render_example :
    (segments : List FragmentSegment) × (parse_fragment marked ≡ some segments)
    × ((render segments ≡ marked) ⊎ (holds (highlight_start ++ highlight_end) marked ≡ true))
parse_fragment-render_example = parse_fragment-render marked

-- A marker inside a marker: `sanitize_search_text` takes out the inner one, and the outer one
-- closes up.
nested_marker :
    sanitize_search_text
      (codes "[[[ABYSS_SEARCH_HIGHLIGHT_ST" ++ (highlight_start ++ codes "ART]]]"))
    ≡ highlight_start
unfolding sanitize_search_text remove remove_from
nested_marker = refl

abbrev details : ℕ → SearchSessionDetails
details id = record {
  id = id;
  session_id = codes "session";
  agent_name = codes "agent";
  agent_version = none;
  started_at = 0;
  ended_at = none;
  host_name = codes "host";
  platform = codes "linux";
  title = none;
}

abbrev matches_of : ℕ → SessionMatches
matches_of session_pk = record { session_pk = session_pk; match_count = 1; events = [] }

abbrev page : List SessionMatches
page = matches_of 5 ∷ matches_of 6 ∷ []

hydrate_sessions-shown_example :
    ((id : ℕ)
      → contains (result_keys (hydrate_sessions ((6, details 6) ∷ []) page)) id
        ≡ (contains (session_keys page) id && is_some (lookup id ((6, details 6) ∷ []))))
    × Distinct (result_keys (hydrate_sessions ((6, details 6) ∷ []) page))
hydrate_sessions-shown_example = hydrate_sessions-shown ((6, details 6) ∷ []) page (refl, tt)
