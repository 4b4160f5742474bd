-- ===== src/Projection/Outbox/Settling.antt =====
-- A recorded result keeps what holds of the outbox (storage/postgres/search/outbox.rs).
use abyss_backend.Common.{
  ℕ, ◌+◌, ◌≤◌, ◌<◌, true, String, [], ◌∷◌, ◌≡◌, refl, sym, ap, subst, inl, inr, arith, ◌==◌, nat_eq,
  if◌then◌else◌, Bool-cases, ==-cases, All, contains, Distinct, ok,
}
use abyss_backend.Projection.Outbox.{
  OutboxRow, Table, OutboxTaskResult, ids, update_row, record_result,
}
use abyss_backend.Projection.Outbox.Rows.{
  IsConsistent, record_row, record_result-rows, record_row-IsConsistent, record_row-id,
}
use abyss_backend.Projection.Outbox.Steps.{World, IsHeld}
use abyss_backend.Projection.Outbox.Sound.{total, Inv}

-- A recorded result.
module _ (now : ℕ) (worker : String) (task : OutboxTaskResult) where
  abbrev pub change : OutboxRow → OutboxRow
  change = record_row now task.attempt_count task.result

  pub ids-update_row : (rows : Table) → ids (update_row task.id change rows) ≡ ids rows
  ids-update_row [] = refl
  ids-update_row (row ∷ rows) = elim (Bool-cases (row.id == task.id)) [
    | inl e ↦
        rw (e, record_row-id now task.attempt_count task.result row)
          (ap (λ t. row.id ∷ t) (ids-update_row rows))
    | inr e ↦ rw e (ap (λ t. row.id ∷ t) (ids-update_row rows))
  ]

  update_row-IsConsistent :
      (rows : Table)
      → IsHeld worker task rows
      → All IsConsistent rows
      → All IsConsistent (update_row task.id change rows)
  update_row-IsConsistent [] h c = tt
  update_row-IsConsistent (row ∷ rows) h c = elim (==-cases row.id task.id) [
    | inl (p, q) ↦
        let (held, same) = h.0 q in
        rw p (
          (record_row-IsConsistent now row worker task.attempt_count task.result c.0 held same).0,
          update_row-IsConsistent rows h.1 c.1,
        )
    | inr (p, q) ↦ rw p (c.0, update_row-IsConsistent rows h.1 c.1)
  ]

  update_row-fresh :
      (n : ℕ) (rows : Table)
      → All (λ row. row.id < n) rows
      → All (λ row. row.id < n) (update_row task.id change rows)
  update_row-fresh n [] h = tt
  update_row-fresh n (row ∷ rows) h = elim (Bool-cases (row.id == task.id)) [
    | inl e ↦
        rw e (
          rw (record_row-id now task.attempt_count task.result row) h.0,
          update_row-fresh n rows h.1,
        )
    | inr e ↦ rw e (h.0, update_row-fresh n rows h.1)
  ]

  -- The rows with the result's id have an attempt less, the others as many.
  total-update_row :
      (i : ℕ) (rows : Table)
      → IsHeld worker task rows
      → All IsConsistent rows
      → total i (update_row task.id change rows)
          + (if contains (ids rows) task.id then (if task.id == i then 1 else 0) else 0)
        ≤ total i rows
  unfolding total
  total-update_row i [] h c = omega arith
  total-update_row i (row ∷ rows) h c = elim (==-cases row.id task.id) [
    | inl (p, q) ↦
        let (held, same) = h.0 q in
        let less =
          (record_row-IsConsistent now row worker task.attempt_count task.result c.0 held same).1 in
        rw p (
          ground (
            arith,
            record_row-id now task.attempt_count task.result row,
            total-update_row i rows h.1 c.1,
            less,
          ))
    | inr (p, q) ↦ rw p (ground (arith, total-update_row i rows h.1 c.1))
  ]

pub record-Inv :
    (latest : ℕ) (w : World) (worker : String) (task : OutboxTaskResult)
    → IsHeld worker task w.rows
    → contains (ids w.rows) task.id ≡ true
    → (record_result latest w.now task w.rows).1 ≡ ok tt
    → Inv w
    → Inv (record w {
      rows = (record_result latest w.now task w.rows).0;
      recorded = task.id ∷ w.recorded;
    })
record-Inv latest w worker task held there done v =
    let change = record_row w.now task.attempt_count task.result in
    rw (record_result-rows latest w.now task w.rows done) (record {
      consistent = update_row-IsConsistent w.now worker task w.rows held v.consistent;
      fresh = update_row-fresh w.now worker task w.next_id w.rows v.fresh;
      distinct = subst Distinct (sym (ids-update_row w.now worker task w.rows)) v.distinct;
      budget = λ i.
          let used = total-update_row w.now worker task i w.rows held v.consistent in
          rw (ids-update_row w.now worker task w.rows) (ground (arith, v.budget i, used, there));
    })
