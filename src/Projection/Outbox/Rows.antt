-- ===== src/Projection/Outbox/Rows.antt =====
-- What each statement does to one row of the outbox (storage/postgres/search/outbox.rs).
use abyss_backend.Common.{
  ℕ, zero, suc, ◌+◌, ◌-◌, ◌≤◌, ◌<◌, Bool, true, false, ◌&&◌, String, [], ◌∷◌, List, none, some, ◌≡◌,
  refl, inl, inr, arith, leb, ltb, if◌then◌else◌, Bool-cases, length, take, is_none, is_some,
  Result, ok, err,
}
use abyss_backend.Search.Text.{Text}
use abyss_backend.Projection.Outbox.{
  OutboxRow, Table, OutboxTaskResult, max_outbox_attempts, max_error_characters, new_task,
  claimable, take_claim, retry_delay, truncate_error, saturating_suc, update_row, complete,
  dead_letter, reschedule, record_outcome, record_result, seconds,
}

-- A row that has not reached an end.
abbrev pub is_open : OutboxRow → Bool
is_open row = is_none row.processed_at && is_none row.dead_lettered_at

-- A row ends at most once, an ended row is not claimed, the tenth failure ends it and no other
-- does. A row that is not completed, also a dead letter, has an error exactly if it has failed, a
-- completed one has none, and an error is bounded.
pub record IsConsistent (row : OutboxRow) : Type 0 where
  pub attempts : row.attempt_count ≤ max_outbox_attempts
  pub claim_whole : is_none row.claimed_at ≡ is_none row.claimed_by
  pub ended_unclaimed : is_open row ≡ false → row.claimed_by ≡ none
  pub one_end : is_some row.processed_at ≡ true → row.dead_lettered_at ≡ none
  pub tenth : is_none row.dead_lettered_at ≡ ltb row.attempt_count max_outbox_attempts
  pub error_bound : (e : Text) → row.last_error ≡ some e → length e ≤ max_error_characters
  pub error_kept :
      is_none row.processed_at ≡ true → is_none row.last_error ≡ leb row.attempt_count 0
  pub error_cleared : is_some row.processed_at ≡ true → row.last_error ≡ none

pub new_task-IsConsistent : (id event_pk now : ℕ) → IsConsistent (new_task id event_pk now)
unfolding new_task
new_task-IsConsistent id event_pk now = record {
  attempts = omega arith;
  claim_whole = refl;
  ended_unclaimed = λ h. cc;
  one_end = λ h. refl;
  tenth = refl;
  error_bound = λ e h. cc;
  error_kept = λ h. refl;
  error_cleared = λ h. refl;
}

pub claimable-is_open : (now : ℕ) (row : OutboxRow) → claimable now row ≡ true → is_open row ≡ true
unfolding claimable
claimable-is_open now row h = ground arith

pub take_claim-IsConsistent :
    (now : ℕ) (worker : String) (row : OutboxRow)
    → is_open row ≡ true
    → IsConsistent row
    → IsConsistent (take_claim now worker row)
take_claim-IsConsistent now worker row h c = record {
  attempts = c.attempts;
  claim_whole = refl;
  ended_unclaimed = λ k. cc;
  one_end = c.one_end;
  tenth = c.tenth;
  error_bound = c.error_bound;
  error_kept = c.error_kept;
  error_cleared = c.error_cleared;
}

length-take-le {ℓ} : {A : Type ℓ} (n : ℕ) (xs : List A) → length (take n xs) ≤ n
length-take-le zero xs = omega arith
length-take-le (suc n) [] = omega arith
length-take-le (suc n) (x ∷ xs) = omega (arith, length-take-le n xs)

pub length-truncate_error : (error : Text) → length (truncate_error error) ≤ max_error_characters
unfolding truncate_error
length-truncate_error error = length-take-le max_error_characters error

-- What a recorded result makes of its row.
pub record_failure_row : ℕ → ℕ → Text → OutboxRow → OutboxRow
record_failure_row now n error row =
    if leb max_outbox_attempts n
    then dead_letter now n error row
    else reschedule (now + seconds (retry_delay n)) n error row

pub record_row : ℕ → ℕ → Result Text (Unit {0}) → OutboxRow → OutboxRow
unfolding record_failure_row
record_row now n (ok _) row = complete now row
record_row now n (err error) row =
    record_failure_row now (saturating_suc n) (truncate_error error) row

record_outcome-rows :
    (latest now id n : ℕ) (r : Result Text (Unit {0})) (table : Table)
    → (record_outcome latest now id n r table).1 ≡ ok tt
    → (record_outcome latest now id n r table).0 ≡ update_row id (record_row now n r) table
unfolding record_outcome record_row
record_outcome-rows latest now id n (ok _) table h = refl
record_outcome-rows latest now id n (err e) table h =
    elim (Bool-cases (leb max_outbox_attempts (saturating_suc n))) [
      | inl last ↦ rw last
      | inr more ↦ elim (Bool-cases (ltb latest (now + seconds (retry_delay (saturating_suc n))))) [
        | inl late ↦ absurd (ground arith)
        | inr fits ↦ rw (more, fits) refl
      ]
    ]

pub record_result-rows :
    (latest now : ℕ) (task : OutboxTaskResult) (table : Table)
    → (record_result latest now task table).1 ≡ ok tt
    → (record_result latest now task table).0
      ≡ update_row task.id (record_row now task.attempt_count task.result) table
unfolding record_result
record_result-rows latest now task table h =
    record_outcome-rows latest now task.id task.attempt_count task.result table h

-- The attempts that are left to a row.
pub remaining : OutboxRow → ℕ
remaining row = if is_open row then max_outbox_attempts - row.attempt_count else 0

module _ (now : ℕ) (row : OutboxRow) (open_row : is_open row ≡ true) (c : IsConsistent row) where
  open_attempts : row.attempt_count < max_outbox_attempts
  open_attempts = ground (arith, c.tenth)

  complete-IsConsistent : IsConsistent (complete now row)
  complete-IsConsistent = record {
    attempts = c.attempts;
    claim_whole = refl;
    ended_unclaimed = λ k. refl;
    one_end = λ k. ground (arith, c.tenth);
    tenth = c.tenth;
    error_bound = λ e k. cc;
    error_kept = λ k. cc;
    error_cleared = λ k. refl;
  }

  failure-IsConsistent :
      (n : ℕ) (error : Text)
      → n ≡ suc row.attempt_count
      → length error ≤ max_error_characters
      → IsConsistent (record_failure_row now n error row)
  unfolding record_failure_row
  failure-IsConsistent n error e bound = elim (Bool-cases (leb max_outbox_attempts n)) [
    | inl done ↦ rw done (record {
      attempts = omega (arith, open_attempts);
      claim_whole = refl;
      ended_unclaimed = λ k. refl;
      one_end = λ k. ground arith;
      tenth = ground arith;
      error_bound = λ x k. ground arith;
      error_kept = λ k. ground arith;
      error_cleared = λ k. ground arith;
    })
    | inr more ↦ rw more (record {
      attempts = omega (arith, open_attempts);
      claim_whole = refl;
      ended_unclaimed = λ k. refl;
      one_end = λ k. ground arith;
      tenth = ground arith;
      error_bound = λ x k. ground arith;
      error_kept = λ k. ground arith;
      error_cleared = λ k. ground arith;
    })
  ]

  remaining-open : remaining row ≡ max_outbox_attempts - row.attempt_count
  unfolding remaining
  remaining-open = rw open_row

  remaining-failure :
      (n : ℕ) (error : Text)
      → n ≡ suc row.attempt_count
      → suc (remaining (record_failure_row now n error row)) ≤ remaining row
  unfolding remaining record_failure_row
  remaining-failure n error e = ground (arith, open_attempts)

  record_outcome-row :
      (n : ℕ) (r : Result Text (Unit {0}))
      → n ≡ row.attempt_count
      → IsConsistent (record_row now n r row)
        × (suc (remaining (record_row now n r row)) ≤ remaining row)
  unfolding record_row
  record_outcome-row n (ok _) e =
      (complete-IsConsistent, unfold remaining in ground (arith, open_attempts))
  record_outcome-row n (err error) e =
      let m : saturating_suc n ≡ suc row.attempt_count = omega (arith, open_attempts) in
      (
        failure-IsConsistent (saturating_suc n) (truncate_error error) m
            (length-truncate_error error),
        remaining-failure (saturating_suc n) (truncate_error error) m,
      )

claimed-is_open :
    (row : OutboxRow) (worker : String)
    → IsConsistent row
    → row.claimed_by ≡ some worker
    → is_open row ≡ true
claimed-is_open row worker c h = elim (Bool-cases (is_open row)) [
  | inl p ↦ p
  | inr q ↦ absurd (let u : row.claimed_by ≡ none = c.ended_unclaimed q in ground arith)
]

-- A result that the holder of a row's claim records keeps the row consistent, and uses up an
-- attempt.
pub record_row-IsConsistent :
    (now : ℕ) (row : OutboxRow) (worker : String) (n : ℕ) (r : Result Text (Unit {0}))
    → IsConsistent row
    → row.claimed_by ≡ some worker
    → n ≡ row.attempt_count
    → IsConsistent (record_row now n r row)
      × (suc (remaining (record_row now n r row)) ≤ remaining row)
record_row-IsConsistent now row worker n r c held e =
    record_outcome-row now row (claimed-is_open row worker c held) c n r e

pub record_row-id :
    (now n : ℕ) (r : Result Text (Unit {0})) (row : OutboxRow)
    → (record_row now n r row).id ≡ row.id
unfolding record_row record_failure_row
record_row-id now n (ok _) row = refl
record_row-id now n (err e) row = elim (Bool-cases (leb max_outbox_attempts (saturating_suc n))) [
  | inl p ↦ rw p
  | inr p ↦ rw p
]

pub remaining-take_claim :
    (now : ℕ) (worker : String) (row : OutboxRow)
    → remaining (take_claim now worker row) ≡ remaining row
unfolding remaining
remaining-take_claim now worker row = refl

pub remaining-new_task :
    (id event_pk now : ℕ) → remaining (new_task id event_pk now) ≡ max_outbox_attempts
unfolding remaining new_task
remaining-new_task id event_pk now = refl
