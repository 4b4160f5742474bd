-- ===== src/Projection/Outbox/Claims.antt =====
-- What a claim does to the rows, where each has an id of its own
-- (storage/postgres/search/outbox.rs).
use mathlib.Core.List.Perm
use abyss_backend.Common.{
  ℕ, zero, suc, Bool, true, false, not, ◌&&◌, String, List, [], ◌∷◌, ◌≡◌, refl, ap, inl, inr, arith,
  nat_eq, Bool-cases, ==-cases, All, contains, contains-Perm, Distinct, take, keep, sort_by,
  sort_by-perm,
}
use abyss_backend.Projection.Outbox.{OutboxRow, Table, by_id, claim_rows, ids, selected, claimable}

-- Which rows have an id that is listed.
pub contains-ids_take :
    (n : ℕ) (rows : Table) (i : ℕ)
    → contains (ids (take n rows)) i ≡ true
    → contains (ids rows) i ≡ true
contains-ids_take zero rows i h = cc
contains-ids_take (suc n) [] i h = h
contains-ids_take (suc n) (row ∷ rows) i h = ground (arith, contains-ids_take n rows i)

pub contains-ids_keep :
    (p : OutboxRow → Bool) (rows : Table) (i : ℕ)
    → contains (ids (keep p rows)) i ≡ true
    → contains (ids rows) i ≡ true
contains-ids_keep p [] i h = h
contains-ids_keep p (row ∷ rows) i h = ground (arith, contains-ids_keep p rows i)

pub All-absent {κ} :
    (P : OutboxRow → Type κ) (rows : Table) (i : ℕ)
    → contains (ids rows) i ≡ false
    → All (λ row. row.id ≡ i → P row) rows
All-absent P [] i h = tt
All-absent P (row ∷ rows) i h = elim (==-cases row.id i) [
  | inl (p, q) ↦ absurd (ground arith)
  | inr (p, q) ↦ ((λ e. absurd (q e)), All-absent P rows i (ground arith))
]

All-kept :
    (p : OutboxRow → Bool) (rows : Table) (i : ℕ)
    → Distinct (ids rows)
    → contains (ids (keep p rows)) i ≡ true
    → All (λ row. row.id ≡ i → p row ≡ true) rows
All-kept p [] i d h = tt
All-kept p (row ∷ rows) i d h = elim (Bool-cases (p row)) [
  | inl yes_kept ↦ (
    (λ e. yes_kept),
    elim (==-cases row.id i) [
      | inl (_, q) ↦ All-absent (λ r. p r ≡ true) rows i (ground (arith, d.0))
      | inr (n, _) ↦ All-kept p rows i d.1 (ground arith)
    ],
  )
  | inr not_kept ↦
      let there : contains (ids (keep p rows)) i ≡ true = ground arith in
      (
        (λ e. absurd (ground (arith, d.0, contains-ids_keep p rows i there))),
        All-kept p rows i d.1 there,
      )
]

sort_ids :
    (rows : Table) (i : ℕ)
    → contains (ids (sort_by by_id rows)) i ≡ true
    → contains (ids rows) i ≡ true
sort_ids rows i h =
    contains-Perm i (ids (sort_by by_id rows)) (ids rows)
      (Perm.symm (Perm.map (λ (row : OutboxRow). row.id) (sort_by-perm by_id rows))) h

-- What is selected stands in the table.
pub contains-selected :
    (now : ℕ) (locked : List ℕ) (batch_size : ℕ) (table : Table) (i : ℕ)
    → contains (ids (selected now locked batch_size table)) i ≡ true
    → contains (ids table) i ≡ true
unfolding selected
contains-selected now locked batch_size table i h =
    let free = λ (row : OutboxRow). claimable now row && not (contains locked row.id) in
    contains-ids_keep free table i (
      sort_ids (keep free table) i
        (contains-ids_take batch_size (sort_by by_id (keep free table)) i h))

-- A row whose id was selected is claimable and not locked.
pub selected-claimable :
    (now : ℕ) (locked : List ℕ) (batch_size : ℕ) (table : Table) (i : ℕ)
    → Distinct (ids table)
    → contains (ids (selected now locked batch_size table)) i ≡ true
    → All (λ row. row.id ≡ i → claimable now row && not (contains locked row.id) ≡ true) table
unfolding selected
selected-claimable now locked batch_size table i d h =
    let free = λ (row : OutboxRow). claimable now row && not (contains locked row.id) in
    All-kept free table i d (
      sort_ids (keep free table) i
        (contains-ids_take batch_size (sort_by by_id (keep free table)) i h))

pub ids-claim_rows :
    (now : ℕ) (worker : String) (chosen : List ℕ) (table : Table)
    → ids (claim_rows now worker chosen table) ≡ ids table
ids-claim_rows now worker chosen [] = refl
ids-claim_rows now worker chosen (row ∷ rows) = elim (Bool-cases (contains chosen row.id)) [
  | inl e ↦ rw e (ap (λ t. row.id ∷ t) (ids-claim_rows now worker chosen rows))
  | inr e ↦ rw e (ap (λ t. row.id ∷ t) (ids-claim_rows now worker chosen rows))
]
