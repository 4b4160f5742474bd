-- ===== src/Projection/Outbox/Holding.antt =====
-- A worker holds what it has just claimed (storage/postgres/search/outbox.rs).
use abyss_backend.Common.{
  ℕ, true, false, not, ◌&&◌, String, List, [], ◌∷◌, map, ◌≡◌, refl, sym, ap, inl, inr, arith, ◌∙◌,
  ==_refl, nat_eq, Bool-cases, ==-cases, All, All-keep, All-take, All-sort, contains, Distinct,
  keep, sort_by, Result,
}
use abyss_backend.Search.Text.{Text}
use abyss_backend.Projection.Outbox.{
  OutboxRow, Table, RawClaimedOutboxTask, OutboxTaskResult, by_id, claim, claim_rows, ids, selected,
  claimable, returning,
}
use abyss_backend.Projection.Outbox.Claims.{contains-selected, ids-claim_rows, All-absent}
use abyss_backend.Projection.Outbox.Steps.{IsHeld}

-- The rows of a table that have the id of one of them are that one.
abbrev IsAlone : Table → OutboxRow → Type 0
IsAlone table row = All (λ other. other.id ≡ row.id → other.attempt_count ≡ row.attempt_count) table

rows-IsAlone : (table : Table) → Distinct (ids table) → All (IsAlone table) table
rows-IsAlone [] d = tt
rows-IsAlone (row ∷ rows) d = (
  ((λ e. refl), All-absent (λ other. other.attempt_count ≡ row.attempt_count) rows row.id d.0),
  later rows d.0 (rows-IsAlone rows d.1),
)
  where
    later :
        (more : Table)
        → contains (ids more) row.id ≡ false
        → All (IsAlone rows) more
        → All (IsAlone (row ∷ rows)) more
    later [] h a = tt
    later (other ∷ more) h a = elim (==-cases other.id row.id) [
      | inl (p, q) ↦ absurd (ground arith)
      | inr (p, q) ↦ (((λ e. absurd (q (sym e))), a.0), later more (ground arith) a.1)
    ]

selected-IsAlone :
    (now : ℕ) (locked : List ℕ) (batch_size : ℕ) (table : Table)
    → Distinct (ids table)
    → All (IsAlone table) (selected now locked batch_size table)
unfolding selected
selected-IsAlone now locked batch_size table d =
    let free = λ (row : OutboxRow). claimable now row && not (contains locked row.id) in
    All-take (IsAlone table) batch_size (sort_by by_id (keep free table)) (
      All-sort (IsAlone table) by_id (keep free table)
        (All-keep (IsAlone table) free table (rows-IsAlone table d)))

abbrev pub outcome : RawClaimedOutboxTask → Result Text (Unit {0}) → OutboxTaskResult
outcome task result = record { id = task.id; attempt_count = task.attempt_count; result = result }

claimed-IsHeld :
    (now : ℕ) (worker : String) (chosen : List ℕ) (row : OutboxRow) (r : Result Text (Unit {0}))
    → (rows : Table) → contains chosen row.id ≡ true
    → IsAlone rows row
    → IsHeld worker (outcome (returning row) r) (claim_rows now worker chosen rows)
claimed-IsHeld now worker chosen row r [] c a = tt
claimed-IsHeld now worker chosen row r (other ∷ rows) c a =
    elim (Bool-cases (contains chosen other.id)) [
      | inl e ↦ rw e ((λ q. (refl, sym (a.0 q))), claimed-IsHeld now worker chosen row r rows c a.1)
      | inr e ↦ rw e (
        (λ q. absurd (ground (arith, ap (contains chosen) q))),
        claimed-IsHeld now worker chosen row r rows c a.1,
      )
    ]

abbrev pub IsHeldIn : String → Table → RawClaimedOutboxTask → Type 0
IsHeldIn worker table task =
    (r : Result Text (Unit {0}))
    → IsHeld worker (outcome task r) table × (contains (ids table) task.id ≡ true)

returned-IsHeldIn :
    (now : ℕ) (worker : String) (chosen : List ℕ) (table : Table) (rows : List OutboxRow)
    → All (λ row. contains chosen row.id ≡ true) rows
    → All (λ row. contains (ids table) row.id ≡ true) rows
    → All (IsAlone table) rows
    → All (IsHeldIn worker (claim_rows now worker chosen table)) (map returning rows)
returned-IsHeldIn now worker chosen table [] c t a = tt
returned-IsHeldIn now worker chosen table (row ∷ rows) c t a = (
  (λ r. (
    claimed-IsHeld now worker chosen row r table c.0 a.0,
    ap (λ xs. contains xs row.id) (ids-claim_rows now worker chosen table) ∙ t.0,
  )),
  returned-IsHeldIn now worker chosen table rows c.1 t.1 a.1,
)

own_ids :
    (rows more : List OutboxRow)
    → ((i : ℕ) → contains (ids rows) i ≡ true → contains (ids more) i ≡ true)
    → All (λ row. contains (ids more) row.id ≡ true) rows
own_ids [] more f = tt
own_ids (row ∷ rows) more f =
    (f row.id (ground (arith, ==_refl row.id)), own_ids rows more (λ i h. f i (ground arith)))

-- Where each row has an id of its own, the worker holds every task that its claim returns, with the
-- attempt count that was returned, whatever the result is going to be.
pub claim-IsHeld :
    (now : ℕ) (worker : String) (locked : List ℕ) (batch_size : ℕ) (table : Table)
    → Distinct (ids table)
    → All
        (IsHeldIn worker (claim now worker locked batch_size table).0)
        (claim now worker locked batch_size table).1
unfolding claim
claim-IsHeld now worker locked batch_size table d =
    let rows = selected now locked batch_size table in
    returned-IsHeldIn now worker (ids rows) table rows (own_ids rows rows (λ i h. h))
      (own_ids rows table (contains-selected now locked batch_size table))
      (selected-IsAlone now locked batch_size table d)
