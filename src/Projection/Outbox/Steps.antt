-- ===== src/Projection/Outbox/Steps.antt =====
-- Ingest, workers and the clock as steps on the outbox (storage/postgres/search/outbox.rs). A worker
-- records its results one statement at a time, so that the statements of others come between.
use abyss_backend.Common.{
  ℕ, suc, ◌≤◌, true, String, List, [], ◌∷◌, ◌++◌, some, ◌≡◌, nat_eq, All, contains, ok,
}
use abyss_backend.Projection.Outbox.{Table, OutboxTaskResult, new_task, claim, ids, record_result}

-- `recorded` is the history: the row of every result that was recorded.
pub record World : Type 0 where
  pub now : ℕ
  pub next_id : ℕ
  pub rows : Table
  pub recorded : List ℕ

-- The worker still has the claim that the result is about. A claim that has run out, and that
-- another worker took, is not held.
abbrev pub IsHeld : String → OutboxTaskResult → Table → Type 0
IsHeld worker task table =
    All
      (λ row.
        row.id ≡ task.id
        → (row.claimed_by ≡ some worker) × (task.attempt_count ≡ row.attempt_count))
      table

pub data Step (latest : ℕ) : World → World → Type 0 where
  tick : (w : World) (later : ℕ) → w.now ≤ later → Step latest w (record w { now = later })
  -- Ingest, or the backfill, queues an event.
  enqueue :
      (w : World) (event_pk : ℕ)
      → Step latest w (record w {
        next_id = suc w.next_id;
        rows = w.rows ++ new_task w.next_id event_pk w.now ∷ [];
      })
  claim_step :
      (w : World) (worker : String) (locked : List ℕ) (batch_size : ℕ)
      → Step latest w (record w { rows = (claim w.now worker locked batch_size w.rows).0 })
  record_step :
      (w : World) (worker : String) (task : OutboxTaskResult)
      → IsHeld worker task w.rows
      → contains (ids w.rows) task.id ≡ true
      → (record_result latest w.now task w.rows).1 ≡ ok tt
      → Step latest w (record w {
        rows = (record_result latest w.now task w.rows).0;
        recorded = task.id ∷ w.recorded;
      })

pub data Reach (latest : ℕ) (start : World) : World → Type 0 where
  here : Reach latest start start
  next : {v w : World} → Reach latest start v → Step latest v w → Reach latest start w

unfoldable pub empty_world : ℕ → World
empty_world now = record { now = now; next_id = 0; rows = []; recorded = [] }
