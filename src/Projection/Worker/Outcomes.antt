-- ===== src/Projection/Worker/Outcomes.antt =====
-- Each task of a batch gets its own result (storage/postgres/search/worker.rs,
-- storage/postgres/search/elasticsearch.rs).
use abyss_backend.Common.{
  ℕ, suc, Bool, true, false, not, ◌&&◌, ◌||◌, List, [], ◌∷◌, map, ◌≡◌, refl, sym, ap, ◌∙◌, inl, inr,
  arith, ◌==◌, nat_eq, if◌then◌else◌, Bool-cases, ==→eq, length, length-map, any, Result, ok, err,
  Result-cases,
}
use abyss_backend.Search.Text.{Text}
use abyss_backend.Projection.Bulk.{
  BulkOperation, BulkMessages, SearchClientError, ResponseItem, item_results, read_items,
  read_reply, apply_bulk,
}
use abyss_backend.Projection.Outbox.{OutboxTaskResult}
use abyss_backend.Projection.Worker.{PreparedOutboxTask, is_err, outcomes, zip_results, apply_tasks}

length-item_results :
    (messages : BulkMessages) (items : List ResponseItem) (operations : List BulkOperation)
    → length items ≡ length operations
    → length (item_results messages items operations) ≡ length operations
unfolding item_results
length-item_results messages [] operations h = h
length-item_results messages (item ∷ items) [] h = absurd (omega arith)
length-item_results messages (item ∷ items) (operation ∷ operations) h =
    ap suc (length-item_results messages items operations (omega arith))

length-read_items :
    (messages : BulkMessages) (operations : List BulkOperation) (items : List ResponseItem)
    → (results : List (Result Text (Unit {0}))) → read_items messages operations items ≡ ok results
    → length results ≡ length operations
unfolding read_items
length-read_items messages operations items results h =
    elim (Bool-cases (length items == length operations)) [
      | inl e ↦ ground (
        arith,
        length-item_results messages items operations (==→eq (length items) (length operations) e),
      )
      | inr e ↦ absurd (ground arith)
    ]

length-apply_bulk :
    (messages : BulkMessages) (operations : List BulkOperation)
    → (reply : Result SearchClientError (List ResponseItem))
    → (results : List (Result Text (Unit {0}))) → apply_bulk messages operations reply ≡ ok results
    → length results ≡ length operations
unfolding apply_bulk read_reply
length-apply_bulk messages [] reply results h = ground arith
length-apply_bulk messages (operation ∷ operations) (err error) results h = cc
length-apply_bulk messages (operation ∷ operations) (ok items) results h =
    length-read_items messages (operation ∷ operations) items results h

abbrev pub task_key : PreparedOutboxTask → ℕ × ℕ
task_key task = (task.id, task.attempt_count)

abbrev pub result_key : OutboxTaskResult → ℕ × ℕ
result_key result = (result.id, result.attempt_count)

zip_results-keys :
    (tasks : List PreparedOutboxTask) (results : List (Result Text (Unit {0})))
    → length results ≡ length tasks
    → map result_key (zip_results tasks results) ≡ map task_key tasks
unfolding zip_results
zip_results-keys [] results h = refl
zip_results-keys (task ∷ tasks) [] h = absurd (omega arith)
zip_results-keys (task ∷ tasks) (result ∷ results) h =
    ap (λ t. task_key task ∷ t) (zip_results-keys tasks results (omega arith))

any-zip_results :
    (tasks : List PreparedOutboxTask) (results : List (Result Text (Unit {0})))
    → length results ≡ length tasks
    → any (λ (r : OutboxTaskResult). is_err r.result) (zip_results tasks results)
      ≡ any is_err results
unfolding zip_results
any-zip_results [] [] h = refl
any-zip_results [] (result ∷ results) h = absurd (omega arith)
any-zip_results (task ∷ tasks) [] h = absurd (omega arith)
any-zip_results (task ∷ tasks) (result ∷ results) h =
    ap (λ b. is_err result || b) (any-zip_results tasks results (omega arith))

abbrev operations_of : List PreparedOutboxTask → List BulkOperation
operations_of tasks = map (λ (task : PreparedOutboxTask). task.operation) tasks

module _ (messages : BulkMessages) (message : SearchClientError → Text)
    (tasks : List PreparedOutboxTask) (reply : Result SearchClientError (List ResponseItem))
    (index_ready : Bool) where
  abbrev pub Aligned : Type 0
  Aligned =
      let (results, ready) = apply_tasks messages message tasks reply index_ready in
      (map result_key results ≡ map task_key tasks)
      × (ready ≡ (index_ready && not (any (λ (r : OutboxTaskResult). is_err r.result) results)))

failed_keys :
    (tasks : List PreparedOutboxTask) (text : Text)
    → map result_key (zip_results tasks (map (λ task. err text) tasks)) ≡ map task_key tasks
failed_keys tasks text =
    zip_results-keys tasks (map (λ (task : PreparedOutboxTask). err text) tasks)
      (length-map (λ (task : PreparedOutboxTask). err text) tasks)

ready_unless_failed : (r f : Bool) → (if f then false else r) ≡ (r && not f)
ready_unless_failed r f = ground arith

answered :
    (messages : BulkMessages) (message : SearchClientError → Text)
    → (tasks : List PreparedOutboxTask) → (reply : Result SearchClientError (List ResponseItem))
    → (index_ready : Bool) (results : List (Result Text (Unit {0})))
    → apply_bulk messages (operations_of tasks) reply ≡ ok results
    → Aligned messages message tasks reply index_ready
unfolding apply_tasks outcomes
answered messages message tasks reply index_ready results e =
    let same : length results ≡ length tasks =
      length-apply_bulk messages (operations_of tasks) reply results e
      ∙ length-map (λ (task : PreparedOutboxTask). task.operation) tasks in
    rw (e, outcomes)
      (
        zip_results-keys tasks results same,
        ready_unless_failed index_ready (any is_err results)
            ∙ ap (λ b. index_ready && not b) (sym (any-zip_results tasks results same)),
      )

failed :
    (messages : BulkMessages) (message : SearchClientError → Text)
    → (task : PreparedOutboxTask) (tasks : List PreparedOutboxTask)
    → (reply : Result SearchClientError (List ResponseItem))
    → (index_ready : Bool) (error : SearchClientError)
    → apply_bulk messages (operations_of (task ∷ tasks)) reply ≡ err error
    → Aligned messages message (task ∷ tasks) reply index_ready
unfolding apply_tasks outcomes
failed messages message task tasks reply index_ready error e =
    rw (e, outcomes)
      (
        failed_keys (task ∷ tasks) (message error),
        unfold zip_results in ready_unless_failed index_ready true,
      )

-- Every task of a batch is recorded once, in the batch's order, with its own id and attempt count,
-- whatever Elasticsearch answers. The index is taken to be ready afterwards exactly if it was and
-- no task failed.
pub apply_tasks-Aligned :
    (messages : BulkMessages) (message : SearchClientError → Text)
    → (tasks : List PreparedOutboxTask) → (reply : Result SearchClientError (List ResponseItem))
    → (index_ready : Bool) → Aligned messages message tasks reply index_ready
apply_tasks-Aligned messages message [] reply index_ready =
    answered messages message [] reply index_ready [] (unfold apply_bulk in refl)
apply_tasks-Aligned messages message (task ∷ tasks) reply index_ready =
    elim (Result-cases (apply_bulk messages (operations_of (task ∷ tasks)) reply)) [
      | inl (results, e) ↦ answered messages message (task ∷ tasks) reply index_ready results e
      | inr (error, e) ↦ failed messages message task tasks reply index_ready error e
    ]
