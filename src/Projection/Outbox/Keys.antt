-- ===== src/Projection/Outbox/Keys.antt =====
-- The ids of claimed rows differ, and a worker that holds several rows still holds the others when
-- it has recorded one (storage/postgres/search/outbox.rs).
use abyss_backend.Common.{
  Distinct-sort_by, ℕ, zero, suc, Bool, true, false, not, ◌&&◌, String, List, [], ◌∷◌, map, some,
  ◌≡◌, refl, subst, sym, ap, ◌∙◌, inl, inr, arith, ◌==◌, nat_eq, Bool-cases, ==-cases, All,
  contains, Distinct, take, keep, sort_by, ok, or-eq-false,
}
use abyss_backend.Projection.Outbox.{
  OutboxRow, Table, RawClaimedOutboxTask, OutboxTaskResult, by_id, claim, ids, selected, claimable,
  update_row, returning,
}
use abyss_backend.Projection.Outbox.Claims.{contains-ids_take, contains-ids_keep}
use abyss_backend.Projection.Outbox.Rows.{record_row, record_row-id}
use abyss_backend.Projection.Outbox.Settling.{ids-update_row}
use abyss_backend.Projection.Outbox.Holding.{claim-IsHeld, IsHeldIn}

Distinct-take : (n : ℕ) (rows : Table) → Distinct (ids rows) → Distinct (ids (take n rows))
Distinct-take zero rows d = tt
Distinct-take (suc n) [] d = tt
Distinct-take (suc n) (row ∷ rows) d = (
  elim (Bool-cases (contains (ids (take n rows)) row.id)) [
    | inl e ↦ absurd (ground (arith, d.0, contains-ids_take n rows row.id e))
    | inr e ↦ e
  ],
  Distinct-take n rows d.1,
)

Distinct-keep :
    (p : OutboxRow → Bool) (rows : Table) → Distinct (ids rows) → Distinct (ids (keep p rows))
Distinct-keep p [] d = tt
Distinct-keep p (row ∷ rows) d = elim (Bool-cases (p row)) [
  | inl e ↦ rw e (
    elim (Bool-cases (contains (ids (keep p rows)) row.id)) [
      | inl f ↦ absurd (ground (arith, d.0, contains-ids_keep p rows row.id f))
      | inr f ↦ f
    ],
    Distinct-keep p rows d.1,
  )
  | inr e ↦ rw e (Distinct-keep p rows d.1)
]

-- The id and the attempt count that a result is recorded with.
abbrev pub Key : Type 0
Key = ℕ × ℕ

abbrev pub IsHeldKey : String → Table → Key → Type 0
IsHeldKey worker table (id, attempt_count) =
    All (λ row. row.id ≡ id → (row.claimed_by ≡ some worker) × (attempt_count ≡ row.attempt_count))
      table
    × (contains (ids table) id ≡ true)

abbrev pub key_id : Key → ℕ
key_id (id, attempt_count) = id

abbrev pub raw_key : RawClaimedOutboxTask → Key
raw_key task = (task.id, task.attempt_count)

key_ids-returning :
    (rows : List OutboxRow) → map key_id (map raw_key (map returning rows)) ≡ ids rows
key_ids-returning [] = refl
key_ids-returning (row ∷ rows) = ap (λ t. row.id ∷ t) (key_ids-returning rows)

held_keys :
    (worker : String) (table : Table) (tasks : List RawClaimedOutboxTask)
    → All (IsHeldIn worker table) tasks
    → All (IsHeldKey worker table) (map raw_key tasks)
held_keys worker table [] h = tt
held_keys worker table (task ∷ tasks) h = (h.0 (ok tt), held_keys worker table tasks h.1)

-- The tasks of a claim have ids that differ, and the worker holds them all.
pub claim-Keys :
    (now : ℕ) (worker : String) (locked : List ℕ) (batch_size : ℕ) (table : Table)
    → Distinct (ids table)
    → Distinct (map key_id (map raw_key (claim now worker locked batch_size table).1))
      × All
          (IsHeldKey worker (claim now worker locked batch_size table).0)
          (map raw_key (claim now worker locked batch_size table).1)
claim-Keys now worker locked batch_size table d = (
  unfold claim selected in
      subst Distinct (sym (key_ids-returning (selected now locked batch_size table))) (
        Distinct-take batch_size
          (sort_by by_id (keep (λ row. claimable now row && not (contains locked row.id)) table))
          (Distinct-sort_by (λ (row : OutboxRow). row.id) by_id
            (keep (λ row. claimable now row && not (contains locked row.id)) table)
            (Distinct-keep (λ row. claimable now row && not (contains locked row.id)) table d))),
  held_keys worker (claim now worker locked batch_size table).0
      (claim now worker locked batch_size table).1
      (claim-IsHeld now worker locked batch_size table d),
)

module _ (now : ℕ) (worker : String) (task : OutboxTaskResult) where
  abbrev pub changed : Table → Table
  changed table = update_row task.id (record_row now task.attempt_count task.result) table

  still_held :
      (id n : ℕ) (rows : Table)
      → (task.id == id) ≡ false
      → All (λ row. row.id ≡ id → (row.claimed_by ≡ some worker) × (n ≡ row.attempt_count)) rows
      → All
          (λ row. row.id ≡ id → (row.claimed_by ≡ some worker) × (n ≡ row.attempt_count))
          (changed rows)
  still_held id n [] other h = tt
  still_held id n (row ∷ rows) other h = elim (==-cases row.id task.id) [
    | inl (e, q) ↦ rw e (
      (λ f.
          absurd (
            let g = sym (record_row-id now task.attempt_count task.result row) ∙ f in
            ground arith)),
      still_held id n rows other h.1,
    )
    | inr (e, q) ↦ rw e (h.0, still_held id n rows other h.1)
  ]

  -- The other held rows stay held.
  pub changed-IsHeldKey :
      (table : Table) (keys : List Key)
      → contains (map key_id keys) task.id ≡ false
      → All (IsHeldKey worker table) keys
      → All (IsHeldKey worker (changed table)) keys
  changed-IsHeldKey table [] c h = tt
  changed-IsHeldKey table ((id, n) ∷ keys) c h =
      let (here, later) = or-eq-false (id == task.id) (contains (map key_id keys) task.id) c in
      (
        (
          still_held id n table (ground arith) h.0.0,
          ap (λ xs. contains xs id) (ids-update_row now worker task table) ∙ h.0.1,
        ),
        changed-IsHeldKey table keys later h.1,
      )
