-- ===== src/Projection/Outbox.antt =====
-- The search outbox: storage/postgres/search/outbox.rs, with the table that its statements update
-- (migrations, `search_outbox`). A table is the list of its rows, and a statement is a function on
-- it that takes the current time. Instants count nanoseconds.
use Prim.Native.String.{◌++◌ as str_append}
use abyss_backend.Common.{
  ℕ, suc, ◌+◌, ◌*◌, ◌^◌, min, max, Bool, true, false, not, ◌&&◌, String, List, [], ◌∷◌, map, Option,
  none, some, ltb, leb, ◌==◌, nat_eq, string_eq, if◌then◌else◌, take, keep, contains, sort_by,
  is_none, Result, ok, err, traverse,
}
use abyss_backend.Errors.{AppError, internal}
use abyss_backend.Search.Text.{Text}
pub mod Rows
pub mod Claims
pub mod Steps
pub mod Sound
pub mod Claiming
pub mod Queueing
pub mod Settling
pub mod Invariant
pub mod Leasing
pub mod Leases
pub mod Holding
pub mod Keys

abbrev pub seconds : ℕ → ℕ
seconds n = n * 1_000_000_000

abbrev pub outbox_lease_seconds : ℕ
outbox_lease_seconds = 120

abbrev pub max_outbox_attempts : ℕ
max_outbox_attempts = 10

abbrev pub max_retry_delay_seconds : ℕ
max_retry_delay_seconds = 300

abbrev pub max_error_characters : ℕ
max_error_characters = 2_000

abbrev i32_max : ℕ
i32_max = 2_147_483_647

pub record OutboxRow : Type 0 where
  pub id : ℕ
  pub event_pk : ℕ
  pub operation : String
  pub attempt_count : ℕ
  pub available_at : ℕ
  pub claimed_at : Option ℕ
  pub claimed_by : Option String
  pub processed_at : Option ℕ
  pub dead_lettered_at : Option ℕ
  pub last_error : Option Text

abbrev pub Table : Type 0
Table = List OutboxRow

-- What ingest inserts with a new event, and the columns' defaults.
unfoldable pub new_task : ℕ → ℕ → ℕ → OutboxRow
new_task id event_pk now = record {
  id = id;
  event_pk = event_pk;
  operation = "upsert";
  attempt_count = 0;
  available_at = now;
  claimed_at = none;
  claimed_by = none;
  processed_at = none;
  dead_lettered_at = none;
  last_error = none;
}

-- `claimed_at IS NULL OR claimed_at < now() - lease`
abbrev pub lease_is_over : ℕ → Option ℕ → Bool
lease_is_over now none = true
lease_is_over now (some at) = ltb (at + seconds outbox_lease_seconds) now

unfoldable pub claimable : ℕ → OutboxRow → Bool
claimable now row =
    is_none row.processed_at
    && (is_none row.dead_lettered_at
        && (leb row.available_at now && lease_is_over now row.claimed_at))

pub record RawClaimedOutboxTask : Type 0 where
  pub id : ℕ
  pub event_pk : ℕ
  pub operation : String
  pub attempt_count : ℕ

abbrev pub by_id : OutboxRow → OutboxRow → Bool
by_id a b = leb a.id b.id

-- The rows of `claimable`: those that no other transaction has locked, by id, at most `batch_size`.
unfoldable pub selected : ℕ → List ℕ → ℕ → Table → List OutboxRow
unfolding claimable
selected now locked batch_size table =
    take batch_size
      (sort_by by_id (keep (λ row. claimable now row && not (contains locked row.id)) table))

abbrev pub ids : List OutboxRow → List ℕ
ids rows = map (λ row. row.id) rows

abbrev pub take_claim : ℕ → String → OutboxRow → OutboxRow
take_claim now worker_id row = record row { claimed_at = some now; claimed_by = some worker_id }

-- `UPDATE search_outbox … WHERE task.id = claimable.id`
abbrev pub claim_rows : ℕ → String → List ℕ → Table → Table
claim_rows now worker_id chosen table =
    map (λ row. if contains chosen row.id then take_claim now worker_id row else row) table

abbrev pub returning : OutboxRow → RawClaimedOutboxTask
returning row = record {
  id = row.id;
  event_pk = row.event_pk;
  operation = row.operation;
  attempt_count = row.attempt_count;
}

-- The statement of `claim_and_prepare`: the table after it, and what it returns.
unfoldable pub claim : ℕ → String → List ℕ → ℕ → Table → Table × List RawClaimedOutboxTask
unfolding selected
claim now worker_id locked batch_size table =
    let rows = selected now locked batch_size table in
    (claim_rows now worker_id (ids rows) table, map returning rows)

pub data SearchOutboxOperation : Type 0 where
  upsert delete : SearchOutboxOperation

pub record ClaimedOutboxTask : Type 0 where
  pub id : ℕ
  pub event_pk : ℕ
  pub operation : SearchOutboxOperation
  pub attempt_count : ℕ

abbrev claimed_task : RawClaimedOutboxTask → SearchOutboxOperation → ClaimedOutboxTask
claimed_task task operation = record {
  id = task.id;
  event_pk = task.event_pk;
  operation = operation;
  attempt_count = task.attempt_count;
}

unfoldable pub try_from : RawClaimedOutboxTask → Result AppError ClaimedOutboxTask
try_from task =
    if task.operation == "upsert"
    then ok (claimed_task task upsert)
    else if task.operation == "delete"
    then ok (claimed_task task delete)
    else err (internal (str_append "unknown session search outbox operation: " task.operation))

pub record OutboxTaskResult : Type 0 where
  pub id : ℕ
  pub attempt_count : ℕ
  pub result : Result Text (Unit {0})

unfoldable pub retry_delay : ℕ → ℕ
retry_delay attempt_count = min (2 ^ min (max attempt_count 1) 8) max_retry_delay_seconds

unfoldable pub truncate_error : Text → Text
truncate_error error = take max_error_characters error

abbrev pub saturating_suc : ℕ → ℕ
saturating_suc n = min (suc n) i32_max

-- `diesel::update(search_outbox::table.find(id)).set(change)`
abbrev pub update_row : ℕ → (OutboxRow → OutboxRow) → Table → Table
update_row id change table = map (λ row. if row.id == id then change row else row) table

abbrev pub complete : ℕ → OutboxRow → OutboxRow
complete now row = record row {
  processed_at = some now;
  claimed_at = none;
  claimed_by = none;
  last_error = none;
}

abbrev pub dead_letter : ℕ → ℕ → Text → OutboxRow → OutboxRow
dead_letter now attempt_count error row = record row {
  attempt_count = attempt_count;
  dead_lettered_at = some now;
  claimed_at = none;
  claimed_by = none;
  last_error = some error;
}

abbrev pub reschedule : ℕ → ℕ → Text → OutboxRow → OutboxRow
reschedule available_at attempt_count error row = record row {
  attempt_count = attempt_count;
  available_at = available_at;
  claimed_at = none;
  claimed_by = none;
  last_error = some error;
}

abbrev pub Recorded : Type 0
Recorded = Table × Result AppError (Unit {0})

-- What a failure does to its row. `latest` is the last instant that a `DateTime<Utc>` holds.
unfoldable pub record_failure : ℕ → ℕ → ℕ → ℕ → Text → Table → Recorded
unfolding retry_delay
record_failure latest now id attempt_count error table =
    let available_at = now + seconds (retry_delay attempt_count) in
    if leb max_outbox_attempts attempt_count
    then (update_row id (dead_letter now attempt_count error) table, ok tt)
    else if ltb latest available_at
    then (table, err (internal "session search retry timestamp overflow"))
    else (update_row id (reschedule available_at attempt_count error) table, ok tt)

unfoldable pub record_outcome : ℕ → ℕ → ℕ → ℕ → Result Text (Unit {0}) → Table → Recorded
unfolding record_failure truncate_error
record_outcome latest now id attempt_count (ok _) table =
    (update_row id (complete now) table, ok tt)
record_outcome latest now id attempt_count (err error) table =
    record_failure latest now id (saturating_suc attempt_count) (truncate_error error) table

-- One round of the loop of `record_results`.
unfoldable pub record_result : ℕ → ℕ → OutboxTaskResult → Table → Recorded
unfolding record_outcome
record_result latest now task table =
    record_outcome latest now task.id task.attempt_count task.result table

-- An error leaves the loop, and what was written stays.
abbrev pub next_result : Recorded → (Table → Recorded) → Recorded
next_result (table, ok _) rest = rest table
next_result (table, err error) rest = (table, err error)

unfoldable pub record_results : ℕ → ℕ → List OutboxTaskResult → Table → Recorded
unfolding record_result
record_results latest now [] table = (table, ok tt)
record_results latest now (task ∷ tasks) table =
    next_result (record_result latest now task table) (record_results latest now tasks)
