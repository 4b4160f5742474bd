-- ===== src/Projection/Worker.antt =====
-- The indexer: storage/postgres/search/worker.rs, with `claim_and_prepare` and
-- `advance_backfill_batch` of storage/postgres/search/outbox.rs. What the database pool, the index
-- check and the bulk request answer is an argument.
use abyss_backend.Common.{
  ℕ, suc, ◌+◌, Bool, true, false, not, ◌&&◌, ◌||◌, String, List, [], ◌∷◌, ◌++◌, map, Option, none,
  some, ltb, leb, ◌==◌, nat_eq, string_eq, if◌then◌else◌, length, take, keep, any, all, is_none,
  lookup, map_option, map_or, sort_by, Result, ok, err, ◌>>=◌, traverse,
}
use abyss_backend.Errors.{AppError}
use abyss_backend.Search.Text.{Text}
use abyss_backend.Projection.Document.{UsageEvent, SearchDocument, from_event}
use abyss_backend.Projection.Bulk.{
  BulkOperation, index, BulkMessages, SearchClientError, ResponseItem, apply_bulk,
}
use abyss_backend.Projection.Bulk
use abyss_backend.Projection.Outbox.{
  OutboxRow, Table, RawClaimedOutboxTask, ClaimedOutboxTask, SearchOutboxOperation, upsert,
  OutboxTaskResult, new_task, claim, try_from, record_results,
}
use abyss_backend.Projection.Outbox
pub mod Outcomes

pub record PreparedOutboxTask : Type 0 where
  pub id : ℕ
  pub attempt_count : ℕ
  pub operation : BulkOperation

unfoldable pub event_by_id : ℕ → List UsageEvent → Option UsageEvent
event_by_id id [] = none
event_by_id id (event ∷ events) = if event.id == id then some event else event_by_id id events

-- The document of an upsert's event; where the event is gone, its document goes too.
unfoldable pub prepare_operation : List UsageEvent → SearchOutboxOperation → ℕ → BulkOperation
unfolding from_event event_by_id
prepare_operation events Outbox.delete event_pk = Bulk.delete event_pk
prepare_operation events Outbox.upsert event_pk =
    map_or (Bulk.delete event_pk) (λ event. index (from_event event)) (event_by_id event_pk events)

unfoldable pub prepare : List UsageEvent → ClaimedOutboxTask → PreparedOutboxTask
unfolding prepare_operation
prepare events task = record {
  id = task.id;
  attempt_count = task.attempt_count;
  operation = prepare_operation events task.operation task.event_pk;
}

-- What follows on the claim: `loaded` is what the query for the events answers, which is not asked
-- where nothing was claimed.
abbrev pub prepare_loaded :
    Result AppError (List UsageEvent)
    → List ClaimedOutboxTask
    → Result AppError (List PreparedOutboxTask)
prepare_loaded loaded [] = ok []
prepare_loaded loaded (task ∷ tasks) = loaded >>= λ events. ok (map (prepare events) (task ∷ tasks))

abbrev pub prepare_claimed :
    Result AppError (List UsageEvent)
    → List RawClaimedOutboxTask
    → Result AppError (List PreparedOutboxTask)
prepare_claimed loaded raw = traverse try_from raw >>= λ tasks. prepare_loaded loaded tasks

-- There is no transaction: the claim stays where a task cannot be read, or the events cannot.
unfoldable pub claim_and_prepare :
    ℕ
    → String
    → List ℕ
    → ℕ
    → Result AppError (List UsageEvent)
    → Table
    → Table × Result AppError (List PreparedOutboxTask)
unfolding claim try_from prepare
claim_and_prepare now worker_id locked batch_size loaded table =
    let (claimed, raw) = claim now worker_id locked batch_size table in
    (claimed, prepare_claimed loaded raw)

abbrev has_upsert : Table → UsageEvent → Bool
has_upsert table event = any (λ row. row.event_pk == event.id && row.operation == "upsert") table

-- The rows of a statement's insertion, which takes the next ids.
unfoldable pub insert_tasks : ℕ → ℕ → List UsageEvent → Table → ℕ × Table
unfolding new_task
insert_tasks now next_id [] table = (next_id, table)
insert_tasks now next_id (event ∷ events) table =
    insert_tasks now (suc next_id) events (table ++ new_task next_id event.id now ∷ [])

unfoldable pub unqueued : ℕ → List UsageEvent → Table → List UsageEvent
unqueued batch_size events table =
    take batch_size
      (sort_by (λ a b. leb a.id b.id) (keep (λ event. not (has_upsert table event)) events))

-- Whether every event is queued: after a full batch this is not asked. `checked` says whether the
-- query succeeds.
unfoldable pub all_queued :
    ℕ
    → List UsageEvent
    → List UsageEvent
    → Table
    → Result AppError (Unit {0})
    → Result AppError Bool
all_queued batch_size events queued grown checked =
    if leb batch_size (length queued)
    then ok false
    else checked >>= λ _. ok (not (any (λ event. not (has_upsert grown event)) events))

-- The next id, the table, and the answer. The inserted rows stay where the query fails.
unfoldable pub advance_backfill_batch :
    ℕ
    → ℕ
    → ℕ
    → List UsageEvent
    → Result AppError (Unit {0})
    → Table
    → ℕ × Table × Result AppError Bool
unfolding insert_tasks unqueued all_queued
advance_backfill_batch now batch_size next_id events checked table =
    let queued = unqueued batch_size events table in
    let (next, grown) = insert_tasks now next_id queued table in
    (next, grown, all_queued batch_size events queued grown checked)

abbrev pub is_err : Result Text (Unit {0}) → Bool
is_err (ok _) = false
is_err (err _) = true

-- The outcome of each task, and whether the index is still taken to be ready.
unfoldable pub outcomes :
    List PreparedOutboxTask
    → (SearchClientError → Text)
    → Result SearchClientError (List (Result Text (Unit {0})))
    → Bool
    → List (Result Text (Unit {0})) × Bool
outcomes tasks message (ok results) index_ready =
    (results, if any is_err results then false else index_ready)
outcomes tasks message (err error) index_ready = (map (λ task. err (message error)) tasks, false)

unfoldable pub zip_results :
    List PreparedOutboxTask → List (Result Text (Unit {0})) → List OutboxTaskResult
zip_results [] results = []
zip_results (task ∷ tasks) [] = []
zip_results (task ∷ tasks) (result ∷ results) =
    record { id = task.id; attempt_count = task.attempt_count; result = result }
    ∷ zip_results tasks results

-- The results that `apply_tasks` records, and `index_ready` after it.
unfoldable pub apply_tasks :
    BulkMessages
    → (SearchClientError → Text)
    → List PreparedOutboxTask
    → Result SearchClientError (List ResponseItem)
    → Bool
    → List OutboxTaskResult × Bool
unfolding apply_bulk outcomes zip_results
apply_tasks messages message tasks reply index_ready =
    let operations = map (λ (task : PreparedOutboxTask). task.operation) tasks in
    let (results, ready) =
      outcomes tasks message (apply_bulk messages operations reply) index_ready in
    (zip_results tasks results, ready)
