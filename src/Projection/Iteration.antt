-- ===== src/Projection/Iteration.antt =====
-- One round of the indexer, and its loop: `process_iteration` and `run` of
-- storage/postgres/search/worker.rs. Whether a statement or the index check succeeds, the times of the
-- statements, the rows that others have locked, and the answer to the bulk request are given for
-- each round. There is no transaction around the statements of a call: what was written before a
-- statement that fails stays.
use abyss_backend.Common.{
  ℕ, Bool, true, false, String, List, [], ◌∷◌, ltb, if◌then◌else◌, length, take, Result, ok, err,
}
use abyss_backend.Errors.{AppError}
use abyss_backend.Search.Text.{Text}
use abyss_backend.Projection.Document.{UsageEvent}
use abyss_backend.Projection.Bulk.{BulkMessages, SearchClientError, ResponseItem}
use abyss_backend.Projection.Outbox.{Table, OutboxTaskResult, record_results}
use abyss_backend.Projection.Worker.{
  PreparedOutboxTask, claim_and_prepare, advance_backfill_batch, apply_tasks,
}
pub mod Prefixes
pub mod Recording
pub mod Rounds
pub mod Refinement

pub record Round : Type 0 where
  pub events : List UsageEvent
  pub index_check : Bool
  -- Whether the connection and the statement that inserts succeed, and the query after it.
  pub backfill_up : Bool
  pub checked : Result AppError (Unit {0})
  -- Whether the connection and the statement that claims succeed, and the events that the query
  -- after it loads.
  pub claim_up : Bool
  pub loaded : Result AppError (List UsageEvent)
  -- How many results are recorded before the database fails.
  pub recorded : ℕ
  pub backfilled_at : ℕ
  pub claimed_at : ℕ
  pub recorded_at : ℕ
  pub locked : List ℕ
  pub reply : Result SearchClientError (List ResponseItem)

-- What the worker keeps between rounds, and the outbox with the next id of its sequence.
pub record Indexer : Type 0 where
  pub index_ready : Bool
  pub backfill_complete : Bool
  pub next_id : ℕ
  pub table : Table

pub data PollSchedule : Type 0 where
  immediately after_interval : PollSchedule

pub record Settings : Type 0 where
  pub worker_id : String
  pub batch_size : ℕ
  pub latest : ℕ
  pub messages : BulkMessages
  pub message : SearchClientError → Text

module _ (settings : Settings) (round : Round) where
  -- `apply_tasks` with its `record_results`, whose error is only logged.
  unfoldable pub record_tasks : List OutboxTaskResult → Table → Table
  unfolding record_results
  record_tasks results table =
      (record_results settings.latest round.recorded_at (take round.recorded results) table).0

  unfoldable pub apply_claimed : List PreparedOutboxTask → Indexer → Indexer × PollSchedule
  unfolding apply_tasks record_tasks
  apply_claimed [] state = (state, after_interval)
  apply_claimed (task ∷ tasks) state =
      let (results, ready) =
        apply_tasks settings.messages settings.message (task ∷ tasks) round.reply
          state.index_ready in
      (
        record state { index_ready = ready; table = record_tasks results state.table },
        if ltb (length (task ∷ tasks)) settings.batch_size then after_interval else immediately,
      )

  unfoldable pub after_claim :
      Indexer → Result AppError (List PreparedOutboxTask) → Indexer × PollSchedule
  unfolding apply_claimed
  after_claim state (err error) = (state, after_interval)
  after_claim state (ok tasks) = apply_claimed tasks state

  unfoldable pub claim_tasks : Indexer → Indexer × PollSchedule
  unfolding claim_and_prepare after_claim
  claim_tasks state =
      if round.claim_up
      then (let (table, tasks) =
            claim_and_prepare round.claimed_at settings.worker_id round.locked settings.batch_size
              round.loaded state.table in
          after_claim (record state { table = table }) tasks)
      else (state, after_interval)

  -- The state after `advance_backfill_batch`, and what it returns.
  unfoldable pub backfilled : Indexer → Indexer × Result AppError Bool
  unfolding advance_backfill_batch
  backfilled state =
      let (next_id, table, complete) =
        advance_backfill_batch round.backfilled_at settings.batch_size state.next_id round.events
          round.checked state.table in
      (record state { next_id = next_id; table = table }, complete)

  unfoldable pub after_backfill : Indexer → Result AppError Bool → Indexer × PollSchedule
  unfolding claim_tasks
  after_backfill state (err error) = (state, after_interval)
  after_backfill state (ok complete) = claim_tasks (record state { backfill_complete = complete })

  unfoldable pub backfill_tasks : Indexer → Indexer × PollSchedule
  unfolding after_backfill backfilled
  backfill_tasks state =
      if state.backfill_complete
      then claim_tasks state
      else if round.backfill_up
      then (let (grown, complete) = backfilled state in after_backfill grown complete)
      else (state, after_interval)

  -- `ensure_index_ready` and what follows it.
  unfoldable pub process_iteration : Indexer → Indexer × PollSchedule
  unfolding backfill_tasks
  process_iteration state =
      if state.index_ready
      then backfill_tasks state
      else if round.index_check
      then backfill_tasks (record state { index_ready = true })
      else (state, after_interval)

-- The rounds up to the shutdown.
unfoldable pub run : Settings → List Round → Indexer → Indexer
unfolding process_iteration
run settings [] state = state
run settings (round ∷ rounds) state = run settings rounds (process_iteration settings round state).0
