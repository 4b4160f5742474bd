-- ===== src/Projection/Outbox/Sound.antt =====
-- What is to hold of the outbox at any time (storage/postgres/search/outbox.rs).
use abyss_backend.Common.{
  ℕ, ◌+◌, ◌*◌, ◌≤◌, ◌<◌, List, [], ◌∷◌, arith, ◌==◌, nat_eq, if◌then◌else◌, All, Distinct,
}
use abyss_backend.Projection.Outbox.{Table, max_outbox_attempts, ids}
use abyss_backend.Projection.Outbox.Rows.{IsConsistent, remaining}
use abyss_backend.Projection.Outbox.Steps.{World, empty_world}

-- How often an id stands in a list.
abbrev pub count : ℕ → List ℕ → ℕ
count i [] = 0
count i (j ∷ js) = (if j == i then 1 else 0) + count i js

-- The attempts that are left to the rows with one id.
unfoldable pub total : ℕ → Table → ℕ
total i [] = 0
total i (row ∷ rows) = (if row.id == i then remaining row else 0) + total i rows

pub record Inv (w : World) : Type 0 where
  pub consistent : All IsConsistent w.rows
  pub fresh : All (λ row. row.id < w.next_id) w.rows
  pub distinct : Distinct (ids w.rows)
  pub budget :
      (i : ℕ) → count i w.recorded + total i w.rows ≤ max_outbox_attempts * count i (ids w.rows)

pub empty_world-Inv : (now : ℕ) → Inv (empty_world now)
unfolding empty_world total
empty_world-Inv now = record {
  consistent = tt;
  fresh = tt;
  distinct = tt;
  budget = λ i. omega arith;
}
