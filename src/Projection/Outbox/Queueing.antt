-- ===== src/Projection/Outbox/Queueing.antt =====
-- A new row keeps what holds of the outbox (storage/postgres/search/outbox.rs).
use mathlib.Core.List.{map-append}
use abyss_backend.Common.{
  ℕ, suc, ◌+◌, ◌*◌, ◌<◌, false, List, [], ◌∷◌, ◌++◌, ◌≡◌, refl, sym, subst, inl, inr, arith, ◌==◌,
  nat_eq, Bool-cases, ne→==, All, All-append, All-map, contains, Distinct, Distinct-snoc,
}
use abyss_backend.Projection.Outbox.{OutboxRow, Table, max_outbox_attempts, new_task, ids}
use abyss_backend.Projection.Outbox.Rows.{IsConsistent, new_task-IsConsistent, remaining-new_task}
use abyss_backend.Projection.Outbox.Steps.{World}
use abyss_backend.Projection.Outbox.Sound.{count, total, Inv}

-- A new row.
total-append : (i : ℕ) (xs ys : Table) → total i (xs ++ ys) ≡ total i xs + total i ys
unfolding total
total-append i [] ys = omega arith
total-append i (x ∷ xs) ys = omega (arith, total-append i xs ys)

count-append : (i : ℕ) (xs ys : List ℕ) → count i (xs ++ ys) ≡ count i xs + count i ys
count-append i [] ys = omega arith
count-append i (x ∷ xs) ys = omega (arith, count-append i xs ys)

unused_id : (n : ℕ) (rows : Table) → All (λ row. row.id < n) rows → contains (ids rows) n ≡ false
unused_id n [] h = refl
unused_id n (row ∷ rows) h = rw (ne→== row.id n (λ e. omega (arith, e, h.0))) (unused_id n rows h.1)

new_task-total :
    (i id event_pk now : ℕ)
    → total i (new_task id event_pk now ∷ []) ≡ max_outbox_attempts * count i (id ∷ [])
unfolding total new_task
new_task-total i id event_pk now = elim (Bool-cases (id == i)) [
  | inl e ↦ rw (e, remaining-new_task id event_pk now) refl
  | inr e ↦ rw e refl
]

pub enqueue-Inv :
    (w : World) (event_pk : ℕ)
    → Inv w
    → Inv (record w {
      next_id = suc w.next_id;
      rows = w.rows ++ new_task w.next_id event_pk w.now ∷ [];
    })
enqueue-Inv w event_pk v =
    let row = new_task w.next_id event_pk w.now in
    let grown : ids (w.rows ++ row ∷ []) ≡ ids w.rows ++ w.next_id ∷ [] =
      unfold new_task in map-append (λ (r : OutboxRow). r.id) w.rows (row ∷ []) in
    record {
      consistent =
          All-append IsConsistent w.rows (row ∷ []) v.consistent
            (new_task-IsConsistent w.next_id event_pk w.now, tt);
      fresh =
          All-append (λ r. r.id < suc w.next_id) w.rows (row ∷ [])
            (All-map (λ r. r.id < w.next_id) (λ r. r.id < suc w.next_id) w.rows (λ r h. omega arith)
              v.fresh)
            (unfold new_task in omega arith, tt);
      distinct =
          subst Distinct (sym grown)
            (Distinct-snoc (ids w.rows) w.next_id v.distinct (unused_id w.next_id w.rows v.fresh));
      budget = λ i.
          rw
            (
              grown,
              total-append i w.rows (row ∷ []),
              count-append i (ids w.rows) (w.next_id ∷ []),
              new_task-total i w.next_id event_pk w.now,
            )
            (omega (arith, v.budget i));
    }
