-- ===== src/Projection/Iteration/Rounds.antt =====
-- A round of the indexer takes only steps of the outbox (storage/postgres/search/worker.rs).
use abyss_backend.Common.{
  ℕ, ◌≤◌, Bool, true, take, List, [], ◌∷◌, map, ◌≡◌, refl, sym, ap, subst, ◌∙◌, inl, inr, arith,
  nat_eq, if◌then◌else◌, Bool-cases, if-intro, All, Distinct, Result, ok, err, string_eq,
}
use abyss_backend.Errors.{AppError}
use abyss_backend.Projection.Outbox.{Table, OutboxTaskResult, claim, ids, record_results}
use abyss_backend.Projection.Outbox.Steps.{World, tick, claim_step, Reach, here, next}
use abyss_backend.Projection.Outbox.Sound.{Inv}
use abyss_backend.Projection.Outbox.Invariant.{Reach-Inv}
use abyss_backend.Projection.Outbox.Keys.{Key, IsHeldKey, key_id, raw_key, claim-Keys}
use abyss_backend.Projection.Worker.Outcomes.{task_key, result_key, apply_tasks-Aligned}
use abyss_backend.Projection.Worker.{
  PreparedOutboxTask, insert_tasks, unqueued, advance_backfill_batch, apply_tasks,
  claim_and_prepare, prepare_claimed,
}
use abyss_backend.Projection.Iteration.{
  Round, Indexer, Settings, PollSchedule, after_interval, record_tasks, apply_claimed, after_claim,
  claim_tasks, backfilled, after_backfill, backfill_tasks, process_iteration,
}
use abyss_backend.Projection.Iteration.Prefixes.{take-Distinct, take-All}
use abyss_backend.Projection.Iteration.Recording.{
  Reach-trans, insert_tasks-Leads, record_results-Leads, prepared_keys,
}

-- The worker's state after a round, and a world with its outbox.
abbrev pub Reaches : ℕ → World → ℕ → Indexer → Type 0
Reaches latest w time state =
    (w' : World) × Reach latest w w'
    × (w'.now ≤ time)
    × (w'.next_id ≡ state.next_id)
    × (w'.rows ≡ state.table)

module _ (settings : Settings) (round : Round) where
  record_tasks-Reaches :
      (results : List OutboxTaskResult) (state : Indexer) (w : World)
      → w.now ≤ round.recorded_at
      → w.next_id ≡ state.next_id
      → w.rows ≡ state.table
      → Distinct (map key_id (map result_key results))
      → All (IsHeldKey settings.worker_id w.rows) (map result_key results)
      → Reaches settings.latest w round.recorded_at
          (record state { table = record_tasks settings round results state.table })
  unfolding record_tasks
  record_tasks-Reaches results state w later i t d h =
      let u = record w { now = round.recorded_at } in
      let written = take round.recorded results in
      let (w', r, n, i', t') =
        record_results-Leads settings.latest settings.worker_id written u
          (take-Distinct round.recorded results d)
          (take-All (IsHeldKey settings.worker_id w.rows) round.recorded results h) in
      (
        w',
        Reach-trans (next here (tick w round.recorded_at later)) r,
        omega (arith, n),
        i' ∙ i,
        t'
            ∙ ap
                (λ (rows : Table).
                  (record_results settings.latest round.recorded_at written rows).0)
                t,
      )

  apply_claimed-Reaches :
      (tasks : List PreparedOutboxTask) (state : Indexer) (w : World)
      → w.now ≤ round.recorded_at
      → w.next_id ≡ state.next_id
      → w.rows ≡ state.table
      → Distinct (map key_id (map task_key tasks))
      → All (IsHeldKey settings.worker_id w.rows) (map task_key tasks)
      → Reaches settings.latest w round.recorded_at (apply_claimed settings round tasks state).0
  unfolding apply_claimed
  apply_claimed-Reaches [] state w later i t d h = (w, here, later, i, t)
  apply_claimed-Reaches (task ∷ tasks) state w later i t d h =
      let applied =
        apply_tasks settings.messages settings.message (task ∷ tasks) round.reply
          state.index_ready in
      let keys : map result_key applied.0 ≡ map task_key (task ∷ tasks) =
        (apply_tasks-Aligned settings.messages settings.message (task ∷ tasks) round.reply
          state.index_ready).0 in
      record_tasks-Reaches applied.0 (record state { index_ready = applied.1 }) w later i t
        (subst (λ ks. Distinct (map key_id ks)) (sym keys) d)
        (subst (All (IsHeldKey settings.worker_id w.rows)) (sym keys) h)

  after_claim-Reaches :
      (tasks : Result AppError (List PreparedOutboxTask)) (state : Indexer) (w : World)
      → w.now ≤ round.recorded_at
      → w.next_id ≡ state.next_id
      → w.rows ≡ state.table
      → ((ts : List PreparedOutboxTask)
          → tasks ≡ ok ts
          → Distinct (map key_id (map task_key ts))
            × All (IsHeldKey settings.worker_id w.rows) (map task_key ts))
      → Reaches settings.latest w round.recorded_at (after_claim settings round state tasks).0
  unfolding after_claim
  after_claim-Reaches (err error) state w later i t f = (w, here, later, i, t)
  after_claim-Reaches (ok tasks) state w later i t f =
      apply_claimed-Reaches tasks state w later i t (f tasks refl).0 (f tasks refl).1

  claim_tasks-Reaches :
      (state : Indexer) (w : World)
      → Distinct (ids w.rows)
      → w.now ≤ round.claimed_at
      → round.claimed_at ≤ round.recorded_at
      → w.next_id ≡ state.next_id
      → w.rows ≡ state.table
      → Reaches settings.latest w round.recorded_at (claim_tasks settings round state).0
  unfolding claim_tasks claim_and_prepare
  claim_tasks-Reaches state w d soon later i t = elim (Bool-cases round.claim_up) [
    | inr down ↦ rw down (w, here, omega arith, i, t)
    | inl up ↦
        let claimed =
          claim round.claimed_at settings.worker_id round.locked settings.batch_size state.table in
        let (distinct, held) =
          claim-Keys round.claimed_at settings.worker_id round.locked settings.batch_size
            state.table (subst (λ (rows : Table). Distinct (ids rows)) t d) in
        let v = record w { now = round.claimed_at } in
        let u = record v {
          rows =
              (claim round.claimed_at settings.worker_id round.locked settings.batch_size w.rows).0;
        } in
        let same : u.rows ≡ claimed.0 =
          ap
            (λ (rows : Table).
              (claim round.claimed_at settings.worker_id round.locked settings.batch_size rows).0)
            t in
        let tasks = prepare_claimed round.loaded claimed.1 in
        let (w', r, n, i', t') =
          after_claim-Reaches tasks (record state { table = claimed.0 }) u later i same
            (λ ts e.
              let keys = sym (prepared_keys round.loaded claimed.1 ts e) in
              (
                subst (λ (ks : List Key). Distinct (map key_id ks)) keys distinct,
                subst (λ (ks : List Key). All (IsHeldKey settings.worker_id u.rows) ks) keys
                    (subst
                      (λ (rows : Table).
                        All (IsHeldKey settings.worker_id rows) (map raw_key claimed.1))
                      (sym same) held),
              )) in
        rw up (
          w',
          Reach-trans
              (next (next here (tick w round.claimed_at soon))
                (claim_step v settings.worker_id round.locked settings.batch_size))
              r,
          n,
          i',
          t',
        )
  ]

  backfilled-Reaches :
      (state : Indexer) (w : World)
      → w.now ≤ round.backfilled_at
      → w.next_id ≡ state.next_id
      → w.rows ≡ state.table
      → Reaches settings.latest w round.backfilled_at (backfilled settings round state).0
  unfolding backfilled advance_backfill_batch
  backfilled-Reaches state w soon i t =
      let u = record w { now = round.backfilled_at } in
      let queued = λ (rows : Table). unqueued settings.batch_size round.events rows in
      let inserted =
        λ (n : ℕ) (rows : Table). insert_tasks round.backfilled_at n (queued rows) rows in
      let (w', r, n, i', t') = insert_tasks-Leads settings.latest (queued w.rows) u in
      (
        w',
        Reach-trans (next here (tick w round.backfilled_at soon)) r,
        omega (arith, n),
        i' ∙ ap (λ k. (inserted k w.rows).0) i ∙ ap (λ rows. (inserted state.next_id rows).0) t,
        t' ∙ ap (λ k. (inserted k w.rows).1) i ∙ ap (λ rows. (inserted state.next_id rows).1) t,
      )

  after_backfill-Reaches :
      (complete : Result AppError Bool) (state : Indexer) (w : World)
      → Distinct (ids w.rows)
      → w.now ≤ round.claimed_at
      → round.claimed_at ≤ round.recorded_at
      → w.next_id ≡ state.next_id
      → w.rows ≡ state.table
      → Reaches settings.latest w round.recorded_at (after_backfill settings round state complete).0
  unfolding after_backfill
  after_backfill-Reaches (err error) state w d soon later i t = (w, here, omega arith, i, t)
  after_backfill-Reaches (ok complete) state w d soon later i t =
      claim_tasks-Reaches (record state { backfill_complete = complete }) w d soon later i t

  -- The statements of a round follow one another.
  abbrev pub IsOrdered : Type 0
  IsOrdered = (round.backfilled_at ≤ round.claimed_at) × (round.claimed_at ≤ round.recorded_at)

  module _ (ordered : IsOrdered) where
    backfill_tasks-Reaches :
        (state : Indexer) (w : World)
        → Inv w
        → w.now ≤ round.backfilled_at
        → w.next_id ≡ state.next_id
        → w.rows ≡ state.table
        → Reaches settings.latest w round.recorded_at (backfill_tasks settings round state).0
    unfolding backfill_tasks
    backfill_tasks-Reaches state w v soon i t =
        if-intro (λ (p : Indexer × PollSchedule). Reaches settings.latest w round.recorded_at p.0)
          state.backfill_complete (claim_tasks settings round state)
          (if round.backfill_up
            then after_backfill settings round (backfilled settings round state).0
                (backfilled settings round state).1
            else (state, after_interval))
          (λ done. claim_tasks-Reaches state w v.distinct (omega (arith, ordered.0)) ordered.1 i t)
          (λ more.
            if-intro
              (λ (p : Indexer × PollSchedule). Reaches settings.latest w round.recorded_at p.0)
              round.backfill_up
              (after_backfill settings round (backfilled settings round state).0
                (backfilled settings round state).1)
              (state, after_interval)
              (λ up.
                let (u, r, n, i', t') = backfilled-Reaches state w soon i t in
                let (w', r', n', i'', t'') =
                  after_backfill-Reaches (backfilled settings round state).1
                    (backfilled settings round state).0 u (Reach-Inv v r).distinct
                    (omega (arith, ordered.0, n)) ordered.1 i' t' in
                (w', Reach-trans r r', n', i'', t''))
              (λ down. (w, here, omega (arith, ordered.0, ordered.1), i, t)))

    pub process_iteration-Reaches :
        (state : Indexer) (w : World)
        → Inv w
        → w.now ≤ round.backfilled_at
        → w.next_id ≡ state.next_id
        → w.rows ≡ state.table
        → Reaches settings.latest w round.recorded_at (process_iteration settings round state).0
    unfolding process_iteration
    process_iteration-Reaches state w v soon i t =
        let ready = record state { index_ready = true } in
        if-intro (λ (p : Indexer × PollSchedule). Reaches settings.latest w round.recorded_at p.0)
          state.index_ready (backfill_tasks settings round state)
          (if round.index_check
            then backfill_tasks settings round ready
            else (state, after_interval))
          (λ known. backfill_tasks-Reaches state w v soon i t)
          (λ unknown.
            if-intro
              (λ (p : Indexer × PollSchedule). Reaches settings.latest w round.recorded_at p.0)
              round.index_check (backfill_tasks settings round ready) (state, after_interval)
              (λ found. backfill_tasks-Reaches ready w v soon i t)
              (λ missing. (w, here, omega (arith, ordered.0, ordered.1), i, t)))
