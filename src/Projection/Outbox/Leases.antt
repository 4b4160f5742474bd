-- ===== src/Projection/Outbox/Leases.antt =====
-- Leases: who may work on a row (storage/postgres/search/outbox.rs).
use abyss_backend.Common.{
  ℕ, ◌+◌, ◌≤◌, ◌<◌, true, false, String, List, [], ◌∷◌, map, ◌≡◌, refl, sym, ap, ◌∙◌, inl, inr,
  arith, nat_eq, ==-cases, All, contains,
}
use abyss_backend.Projection.Outbox.{
  OutboxRow, Table, RawClaimedOutboxTask, outbox_lease_seconds, seconds, claim, ids, selected,
  returning,
}
use abyss_backend.Projection.Outbox.Claims.{contains-selected}
use abyss_backend.Projection.Outbox.Steps.{World, Reach}
use abyss_backend.Projection.Outbox.Sound.{count, Inv}
use abyss_backend.Projection.Outbox.Claiming.{claim-Inv}
use abyss_backend.Projection.Outbox.Invariant.{Reach-Inv}
use abyss_backend.Projection.Outbox.Leasing.{leased-selected, claim_rows-IsLeased, Reach-IsLeased}

abbrev pub task_ids : List RawClaimedOutboxTask → List ℕ
task_ids tasks = map (λ task. task.id) tasks

task_ids-returning : (rows : List OutboxRow) → task_ids (map returning rows) ≡ ids rows
task_ids-returning [] = refl
task_ids-returning (row ∷ rows) = ap (λ t. row.id ∷ t) (task_ids-returning rows)

known_id :
    (n id : ℕ) (rows : Table)
    → All (λ row. row.id < n) rows
    → contains (ids rows) id ≡ true
    → id < n
known_id n id [] f h = cc
known_id n id (row ∷ rows) f h = elim (==-cases row.id id) [
  | inl (p, q) ↦ omega (arith, q, f.0)
  | inr (p, q) ↦ known_id n id rows f.1 (ground arith)
]

-- The world after a claim.
abbrev pub after : World → String → List ℕ → ℕ → World
after w worker locked size = record w { rows = (claim w.now worker locked size w.rows).0 }

-- In a world that satisfies the outbox's invariant, a row that a claim returns is returned by no
-- other claim until its lease of 120 seconds is over, whatever steps come between (other claims, new
-- rows, results of other rows), if no result is recorded for the row.
pub claim-Exclusive :
    (latest : ℕ) (w u : World) (worker1 worker2 : String) (locked1 locked2 : List ℕ)
    → (size1 size2 id : ℕ) → Inv w
    → contains (task_ids (claim w.now worker1 locked1 size1 w.rows).1) id ≡ true
    → Reach latest (after w worker1 locked1 size1) u
    → count id u.recorded ≡ count id w.recorded
    → u.now ≤ w.now + seconds outbox_lease_seconds
    → contains (task_ids (claim u.now worker2 locked2 size2 u.rows).1) id ≡ false
unfolding claim
claim-Exclusive latest w u worker1 worker2 locked1 locked2 size1 size2 id inv c r same soon =
    let rows = selected w.now locked1 size1 w.rows in
    let chosen : contains (ids rows) id ≡ true =
      ap (λ xs. contains xs id) (sym (task_ids-returning rows)) ∙ c in
    let old =
      known_id w.next_id id w.rows inv.fresh
        (contains-selected w.now locked1 size1 w.rows id chosen) in
    let inv' = claim-Inv w worker1 locked1 size1 inv in
    let leased =
      Reach-IsLeased w.now id inv' old
        (claim_rows-IsLeased w.now worker1 (ids rows) id w.rows chosen) r (omega (arith, same))
        soon in
    ap (λ xs. contains xs id) (task_ids-returning (selected u.now locked2 size2 u.rows))
    ∙ leased-selected w.now u.now locked2 size2 id u.rows (Reach-Inv inv' r).distinct soon leased
