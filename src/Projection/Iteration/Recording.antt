-- ===== src/Projection/Iteration/Recording.antt =====
-- What is inserted and recorded in a round, as steps of the outbox (storage/postgres/search/worker.rs,
-- storage/postgres/search/outbox.rs).
use abyss_backend.Common.{
  ℕ, suc, ◌+◌, String, List, [], ◌∷◌, ◌++◌, map, ◌≡◌, refl, sym, ap, subst, ◌∙◌, inl, inr, arith,
  nat_eq, ltb, leb, Bool-cases, All, Distinct, Result, ok, err, Result-cases, traverse, ◌>>=◌,
  traverse-cons, ok-injective, ok-ne-err, string_eq,
}
use text.Mathlib.TextEquality.{eq_iff}
use abyss_backend.Errors.{AppError}
use abyss_backend.Search.Text.{Text}
use abyss_backend.Projection.Document.{UsageEvent}
use abyss_backend.Projection.Outbox.{
  Table, RawClaimedOutboxTask, ClaimedOutboxTask, OutboxTaskResult, new_task, try_from,
  record_outcome, record_failure, retry_delay, saturating_suc, seconds, max_outbox_attempts,
  Recorded, record_result, record_results, next_result,
}
use abyss_backend.Projection.Outbox.Rows.{record_result-rows}
use abyss_backend.Projection.Outbox.Steps.{World, enqueue, record_step, Reach, here, next}
use abyss_backend.Projection.Outbox.Keys.{Key, IsHeldKey, key_id, raw_key, changed-IsHeldKey}
use abyss_backend.Projection.Worker.Outcomes.{task_key, result_key}
use abyss_backend.Projection.Worker.{
  PreparedOutboxTask, insert_tasks, prepare, prepare_loaded, prepare_claimed,
}

-- A run of steps that leads from one world to one with the given outbox.
abbrev pub Leads : ℕ → World → ℕ → ℕ → Table → Type 0
Leads latest w now next_id table =
    (w' : World) × Reach latest w w' × (w'.now ≡ now) × (w'.next_id ≡ next_id) × (w'.rows ≡ table)

pub Reach-trans :
    {latest : ℕ} {u v w : World} → Reach latest u v → Reach latest v w → Reach latest u w
Reach-trans r here = r
Reach-trans r (next s step) = next (Reach-trans r s) step

pub insert_tasks-Leads :
    (latest : ℕ) (events : List UsageEvent) (w : World)
    → Leads latest w w.now
        (insert_tasks w.now w.next_id events w.rows).0
        (insert_tasks w.now w.next_id events w.rows).1
unfolding insert_tasks
insert_tasks-Leads latest [] w = (w, here, refl, refl, refl)
insert_tasks-Leads latest (event ∷ events) w =
    let u = record w {
      next_id = suc w.next_id;
      rows = w.rows ++ new_task w.next_id event.id w.now ∷ [];
    } in
    let (w', r, n, i, t) = insert_tasks-Leads latest events u in
    (w', Reach-trans (next here (enqueue w event.id)) r, n, i, t)

-- A result whose recording fails changes nothing.
record_outcome-error :
    (latest now id n : ℕ) (r : Result Text (Unit {0})) (table : Table) (error : AppError)
    → (record_outcome latest now id n r table).1 ≡ err error
    → (record_outcome latest now id n r table).0 ≡ table
unfolding record_outcome record_failure
record_outcome-error latest now id n (ok _) table error h = cc
record_outcome-error latest now id n (err e) table error h =
    elim (Bool-cases (leb max_outbox_attempts (saturating_suc n))) [
      | inl last ↦ absurd (ground arith)
      | inr more ↦ elim (Bool-cases (ltb latest (now + seconds (retry_delay (saturating_suc n))))) [
        | inl late ↦ rw (more, late) refl
        | inr fits ↦ absurd (ground arith)
      ]
    ]

record_result-error :
    (latest now : ℕ) (task : OutboxTaskResult) (table : Table) (error : AppError)
    → (record_result latest now task table).1 ≡ err error
    → (record_result latest now task table).0 ≡ table
unfolding record_result
record_result-error latest now task table error h =
    record_outcome-error latest now task.id task.attempt_count task.result table error h

next_result-ok :
    (p : Recorded) (rest : Table → Recorded) → p.1 ≡ ok tt → next_result p rest ≡ rest p.0
next_result-ok (table, ok _) rest h = refl
next_result-ok (table, err e) rest h = cc

next_result-err :
    (p : Recorded) (rest : Table → Recorded) (e : AppError)
    → p.1 ≡ err e
    → (next_result p rest).0 ≡ p.0
next_result-err (table, ok _) rest e h = cc
next_result-err (table, err f) rest e h = refl

pub record_results-Leads :
    (latest : ℕ) (worker : String) (tasks : List OutboxTaskResult) (w : World)
    → Distinct (map key_id (map result_key tasks))
    → All (IsHeldKey worker w.rows) (map result_key tasks)
    → Leads latest w w.now w.next_id (record_results latest w.now tasks w.rows).0
unfolding record_results
record_results-Leads latest worker [] w d h = (w, here, refl, refl, refl)
record_results-Leads latest worker (task ∷ tasks) w d h =
    elim (Result-cases (record_result latest w.now task w.rows).1) [
      | inl (_, e) ↦
          let u = record w {
            rows = (record_result latest w.now task w.rows).0;
            recorded = task.id ∷ w.recorded;
          } in
          let same = record_result-rows latest w.now task w.rows e in
          let (w', r, n, i, t) = record_results-Leads latest worker tasks u d.1 (
            subst (λ rows. All (IsHeldKey worker rows) (map result_key tasks)) (sym same)
              (changed-IsHeldKey w.now worker task w.rows (map result_key tasks) d.0 h.1)) in
          (
            w',
            Reach-trans (next here (record_step w worker task h.0.0 h.0.1 e)) r,
            n,
            i,
            t
                ∙ ap (λ (p : Recorded). p.0)
                    (sym (
                      next_result-ok (record_result latest w.now task w.rows)
                        (record_results latest w.now tasks) e)),
          )
      | inr (error, e) ↦ (
        w,
        here,
        refl,
        refl,
        sym (
            next_result-err (record_result latest w.now task w.rows)
              (record_results latest w.now tasks) error e
            ∙ record_result-error latest w.now task w.rows error e),
      )
    ]

abbrev claimed_key : ClaimedOutboxTask → Key
claimed_key task = (task.id, task.attempt_count)

try_from-key :
    (task : RawClaimedOutboxTask) (claimed : ClaimedOutboxTask)
    → try_from task ≡ ok claimed
    → claimed_key claimed ≡ raw_key task
unfolding try_from
try_from-key task claimed h =
    ground (arith, eq_iff task.operation "upsert", eq_iff task.operation "delete")

collected_keys :
    (raw : List RawClaimedOutboxTask) (tasks : List ClaimedOutboxTask)
    → traverse try_from raw ≡ ok tasks
    → map claimed_key tasks ≡ map raw_key raw
collected_keys [] [] h = refl
collected_keys [] (task ∷ tasks) h = cc
collected_keys (task ∷ raw) tasks h =
    let (claimed, more, e, f, whole) = traverse-cons try_from task raw h in
    ap (map claimed_key) whole
    ∙ ap (λ k. k ∷ map claimed_key more) (try_from-key task claimed e)
    ∙ ap (λ ks. raw_key task ∷ ks) (collected_keys raw more f)

prepare-keys :
    (events : List UsageEvent) (tasks : List ClaimedOutboxTask)
    → map task_key (map (prepare events) tasks) ≡ map claimed_key tasks
unfolding prepare
prepare-keys events [] = refl
prepare-keys events (task ∷ tasks) = ap (λ ks. claimed_key task ∷ ks) (prepare-keys events tasks)

prepare_loaded-keys :
    (loaded : Result AppError (List UsageEvent)) (claimed : List ClaimedOutboxTask)
    → (tasks : List PreparedOutboxTask) → prepare_loaded loaded claimed ≡ ok tasks
    → map task_key tasks ≡ map claimed_key claimed
prepare_loaded-keys loaded [] tasks h =
    ap (map task_key) (ok-injective (prepare_loaded loaded []) h refl)
prepare_loaded-keys (err error) (task ∷ claimed) tasks h = cc
prepare_loaded-keys (ok events) (task ∷ claimed) tasks h =
    ap (map task_key) (ok-injective (prepare_loaded (ok events) (task ∷ claimed)) h refl)
    ∙ prepare-keys events (task ∷ claimed)

-- The keys of what is prepared are those of what was claimed.
pub prepared_keys :
    (loaded : Result AppError (List UsageEvent)) (raw : List RawClaimedOutboxTask)
    → (tasks : List PreparedOutboxTask) → prepare_claimed loaded raw ≡ ok tasks
    → map task_key tasks ≡ map raw_key raw
prepared_keys loaded raw tasks h = elim (Result-cases (traverse try_from raw)) [
  | inl (claimed, e) ↦
      let h' =
        subst (λ r. (r >>= λ (ts : List ClaimedOutboxTask). prepare_loaded loaded ts) ≡ ok tasks) e
          h in
      prepare_loaded-keys loaded claimed tasks h' ∙ collected_keys raw claimed e
  | inr (error, e) ↦ absurd (ok-ne-err (prepare_claimed loaded raw) error h (rw e refl))
]
