-- ===== src/Projection/Outbox/Claiming.antt =====
-- A claim keeps what holds of the outbox (storage/postgres/search/outbox.rs).
use abyss_backend.Common.{
  ℕ, ◌<◌, true, not, ◌&&◌, String, List, [], ◌∷◌, ◌≡◌, refl, sym, subst, inl, inr, nat_eq,
  Bool-cases, All, All-map, contains, Distinct, and-eq-true,
}
use abyss_backend.Projection.Outbox.{Table, claim, claim_rows, ids, selected, claimable}
use abyss_backend.Projection.Outbox.Rows.{
  IsConsistent, is_open, take_claim-IsConsistent, claimable-is_open, remaining-take_claim,
}
use abyss_backend.Projection.Outbox.Claims.{selected-claimable, ids-claim_rows}
use abyss_backend.Projection.Outbox.Steps.{World}
use abyss_backend.Projection.Outbox.Sound.{total, Inv}

-- A claim.
module _ (now : ℕ) (worker : String) (chosen : List ℕ) where
  claim_rows-IsConsistent :
      (rows : Table)
      → All (λ row. contains chosen row.id ≡ true → is_open row ≡ true) rows
      → All IsConsistent rows
      → All IsConsistent (claim_rows now worker chosen rows)
  claim_rows-IsConsistent [] o c = tt
  claim_rows-IsConsistent (row ∷ rows) o c = elim (Bool-cases (contains chosen row.id)) [
    | inl e ↦
        rw e
          (take_claim-IsConsistent now worker row (o.0 e) c.0, claim_rows-IsConsistent rows o.1 c.1)
    | inr e ↦ rw e (c.0, claim_rows-IsConsistent rows o.1 c.1)
  ]

  claim_rows-fresh :
      (n : ℕ) (rows : Table)
      → All (λ row. row.id < n) rows
      → All (λ row. row.id < n) (claim_rows now worker chosen rows)
  claim_rows-fresh n [] h = tt
  claim_rows-fresh n (row ∷ rows) h = elim (Bool-cases (contains chosen row.id)) [
    | inl e ↦ rw e (h.0, claim_rows-fresh n rows h.1)
    | inr e ↦ rw e (h.0, claim_rows-fresh n rows h.1)
  ]

  total-claim_rows :
      (i : ℕ) (rows : Table) → total i (claim_rows now worker chosen rows) ≡ total i rows
  unfolding total
  total-claim_rows i [] = refl
  total-claim_rows i (row ∷ rows) = elim (Bool-cases (contains chosen row.id)) [
    | inl e ↦ rw e (rw (remaining-take_claim now worker row, total-claim_rows i rows) refl)
    | inr e ↦ rw e (rw (total-claim_rows i rows) refl)
  ]

-- What is selected is open.
All-selected :
    (now : ℕ) (locked : List ℕ) (batch_size : ℕ) (table rows : Table)
    → ((i : ℕ)
        → contains (ids (selected now locked batch_size table)) i ≡ true
        → All (λ row. row.id ≡ i → is_open row ≡ true) rows)
    → All
        (λ row.
          contains (ids (selected now locked batch_size table)) row.id ≡ true → is_open row ≡ true)
        rows
All-selected now locked batch_size table [] f = tt
All-selected now locked batch_size table (row ∷ rows) f =
    ((λ e. (f row.id e).0 refl), All-selected now locked batch_size table rows (λ i e. (f i e).1))

selected-is_open :
    (now : ℕ) (locked : List ℕ) (batch_size : ℕ) (table : Table)
    → Distinct (ids table)
    → All
        (λ row.
          contains (ids (selected now locked batch_size table)) row.id ≡ true → is_open row ≡ true)
        table
selected-is_open now locked batch_size table d =
    All-selected now locked batch_size table table (λ i e.
      All-map (λ row. row.id ≡ i → claimable now row && not (contains locked row.id) ≡ true)
        (λ row. row.id ≡ i → is_open row ≡ true) table
        (λ row f p.
          claimable-is_open now row
            (and-eq-true (claimable now row) (not (contains locked row.id)) (f p)).0)
        (selected-claimable now locked batch_size table i d e))

pub claim-Inv :
    (w : World) (worker : String) (locked : List ℕ) (batch_size : ℕ)
    → Inv w
    → Inv (record w { rows = (claim w.now worker locked batch_size w.rows).0 })
unfolding claim
claim-Inv w worker locked batch_size v =
    let chosen = ids (selected w.now locked batch_size w.rows) in
    record {
      consistent =
          claim_rows-IsConsistent w.now worker chosen w.rows
            (selected-is_open w.now locked batch_size w.rows v.distinct) v.consistent;
      fresh = claim_rows-fresh w.now worker chosen w.next_id w.rows v.fresh;
      distinct = subst Distinct (sym (ids-claim_rows w.now worker chosen w.rows)) v.distinct;
      budget = λ i.
          rw
            (
              ids-claim_rows w.now worker chosen w.rows,
              total-claim_rows w.now worker chosen i w.rows,
            )
            (v.budget i);
    }
