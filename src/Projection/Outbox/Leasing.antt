-- ===== src/Projection/Outbox/Leasing.antt =====
-- A lease in the steps of others (storage/postgres/search/outbox.rs).
use abyss_backend.Common.{
  ℕ, ◌+◌, ◌≤◌, ◌<◌, true, false, not, ◌&&◌, String, List, [], ◌∷◌, some, ◌≡◌, refl, subst, inl, inr,
  arith, nat_eq, string_eq, Bool-cases, ==-cases, All, All-append, contains, Distinct, and-eq-true,
}
use abyss_backend.Projection.Outbox.{
  OutboxRow, Table, OutboxTaskResult, outbox_lease_seconds, seconds, claim, claim_rows, ids,
  selected, claimable, new_task, update_row,
}
use abyss_backend.Projection.Outbox.Claims.{selected-claimable, contains-selected}
use abyss_backend.Projection.Outbox.Rows.{record_row, record_result-rows, record_row-id}
use abyss_backend.Projection.Outbox.Steps.{
  World, Step, tick, enqueue, claim_step, record_step, Reach, here, next,
}
use abyss_backend.Projection.Outbox.Sound.{count, Inv}
use abyss_backend.Projection.Outbox.Invariant.{Reach-Inv}

-- The rows with an id were claimed at an instant.
abbrev pub IsLeased : ℕ → ℕ → Table → Type 0
IsLeased at id rows = All (λ row. row.id ≡ id → row.claimed_at ≡ some at) rows

leased-not-claimable :
    (at now : ℕ) (row : OutboxRow)
    → now ≤ at + seconds outbox_lease_seconds
    → row.claimed_at ≡ some at
    → claimable now row ≡ true
    → ⊥
unfolding claimable
leased-not-claimable at now row h e k = ground arith

leased_nowhere :
    (at now : ℕ) (locked : List ℕ) (id : ℕ) (rows : Table)
    → now ≤ at + seconds outbox_lease_seconds
    → IsLeased at id rows
    → All (λ row. row.id ≡ id → claimable now row && not (contains locked row.id) ≡ true) rows
    → contains (ids rows) id ≡ true
    → ⊥
leased_nowhere at now locked id [] h l a c = cc
leased_nowhere at now locked id (row ∷ rows) h l a c = elim (==-cases row.id id) [
  | inl (p, q) ↦
      leased-not-claimable at now row h (l.0 q)
        (and-eq-true (claimable now row) (not (contains locked row.id)) (a.0 q)).0
  | inr (p, q) ↦ leased_nowhere at now locked id rows h l.1 a.1 (ground arith)
]

-- A leased row is not selected.
pub leased-selected :
    (at now : ℕ) (locked : List ℕ) (size id : ℕ) (rows : Table)
    → Distinct (ids rows)
    → now ≤ at + seconds outbox_lease_seconds
    → IsLeased at id rows
    → contains (ids (selected now locked size rows)) id ≡ false
leased-selected at now locked size id rows d h l =
    elim (Bool-cases (contains (ids (selected now locked size rows)) id)) [
      | inl again ↦ absurd (
          leased_nowhere at now locked id rows h l
            (selected-claimable now locked size rows id d again)
            (contains-selected now locked size rows id again))
      | inr free ↦ free
    ]

pub claim_rows-IsLeased :
    (at : ℕ) (worker : String) (chosen : List ℕ) (id : ℕ) (rows : Table)
    → contains chosen id ≡ true
    → IsLeased at id (claim_rows at worker chosen rows)
claim_rows-IsLeased at worker chosen id [] c = tt
claim_rows-IsLeased at worker chosen id (row ∷ rows) c =
    elim (Bool-cases (contains chosen row.id)) [
      | inl e ↦ rw e ((λ q. refl), claim_rows-IsLeased at worker chosen id rows c)
      | inr e ↦ rw e (
        (λ q. absurd (ground (arith, subst (λ k. contains chosen k ≡ false) q e))),
        claim_rows-IsLeased at worker chosen id rows c,
      )
    ]

-- A claim of other rows keeps a lease.
claimed-IsLeased :
    (at now : ℕ) (worker : String) (chosen : List ℕ) (id : ℕ) (rows : Table)
    → contains chosen id ≡ false
    → IsLeased at id rows
    → IsLeased at id (claim_rows now worker chosen rows)
claimed-IsLeased at now worker chosen id [] c l = tt
claimed-IsLeased at now worker chosen id (row ∷ rows) c l =
    elim (Bool-cases (contains chosen row.id)) [
      | inl e ↦ rw e (
        (λ q. absurd (ground (arith, subst (λ k. contains chosen k ≡ true) q e))),
        claimed-IsLeased at now worker chosen id rows c l.1,
      )
      | inr e ↦ rw e (l.0, claimed-IsLeased at now worker chosen id rows c l.1)
    ]

-- So does a result that is recorded for another row.
recorded-IsLeased :
    (at now : ℕ) (task : OutboxTaskResult) (id : ℕ) (rows : Table)
    → (task.id ≡ id → ⊥)
    → IsLeased at id rows
    → IsLeased at id (update_row task.id (record_row now task.attempt_count task.result) rows)
recorded-IsLeased at now task id [] n l = tt
recorded-IsLeased at now task id (row ∷ rows) n l = elim (==-cases row.id task.id) [
  | inl (p, q) ↦ rw p (
    (λ same.
        absurd (n (omega (arith, q, same, record_row-id now task.attempt_count task.result row)))),
    recorded-IsLeased at now task id rows n l.1,
  )
  | inr (p, q) ↦ rw p (l.0, recorded-IsLeased at now task id rows n l.1)
]

-- The clock, the ids and the history only grow.
abbrev pub IsLater : ℕ → World → World → Type 0
IsLater id v w =
    (v.now ≤ w.now) × (v.next_id ≤ w.next_id) × (count id v.recorded ≤ count id w.recorded)

Step-IsLater : {latest : ℕ} {v w : World} (id : ℕ) → Step latest v w → IsLater id v w
Step-IsLater id (tick v later h) = (h, omega arith, omega arith)
Step-IsLater id (enqueue v event_pk) = (omega arith, omega arith, omega arith)
Step-IsLater id (claim_step v worker locked size) = (omega arith, omega arith, omega arith)
Step-IsLater id (record_step v worker task held there done) =
    (omega arith, omega arith, omega arith)

module _ {latest : ℕ} (at id : ℕ) where
  -- A step that records no result for the row, before the lease is over, keeps the lease.
  Step-IsLeased :
      {v w : World}
      → Step latest v w
      → Inv v
      → id < v.next_id
      → count id w.recorded ≤ count id v.recorded
      → v.now ≤ at + seconds outbox_lease_seconds
      → IsLeased at id v.rows
      → IsLeased at id w.rows
  unfolding claim
  Step-IsLeased (tick v later h) i old same soon l = l
  Step-IsLeased (enqueue v event_pk) i old same soon l =
      All-append (λ row. row.id ≡ id → row.claimed_at ≡ some at) v.rows
        (new_task v.next_id event_pk v.now ∷ []) l
        (unfold new_task in ((λ e. absurd (omega (arith, e, old))), tt))
  Step-IsLeased (claim_step v worker locked size) i old same soon l =
      claimed-IsLeased at v.now worker (ids (selected v.now locked size v.rows)) id v.rows
        (leased-selected at v.now locked size id v.rows i.distinct soon l) l
  Step-IsLeased (record_step v worker task held there done) i old same soon l =
      rw (record_result-rows latest v.now task v.rows done) (elim (==-cases task.id id) [
        | inl (p, q) ↦ absurd (ground (arith, p, same))
        | inr (p, q) ↦ recorded-IsLeased at v.now task id v.rows q l
      ])

  module _ {w : World} (inv : Inv w) (old : id < w.next_id) (start : IsLeased at id w.rows) where
    Reach-IsLater : {u : World} → Reach latest w u → IsLater id w u
    Reach-IsLater here = (omega arith, omega arith, omega arith)
    Reach-IsLater (next r step) =
        let a = Reach-IsLater r in
        let b = Step-IsLater id step in
        (omega (arith, a.0, b.0), omega (arith, a.1, b.1), omega (arith, a.2, b.2))

    pub Reach-IsLeased :
        {u : World}
        → Reach latest w u
        → count id u.recorded ≤ count id w.recorded
        → u.now ≤ at + seconds outbox_lease_seconds
        → IsLeased at id u.rows
    Reach-IsLeased here same soon = start
    Reach-IsLeased (next r step) same soon =
        let a = Reach-IsLater r in
        let b = Step-IsLater id step in
        Step-IsLeased step (Reach-Inv inv r) (omega (arith, old, a.1)) (omega (arith, same, a.2))
          (omega (arith, soon, b.0))
          (Reach-IsLeased r (omega (arith, same, b.2)) (omega (arith, soon, b.0)))
