-- ===== src/Usage/Ingest.antt =====
-- The checks of an ingest batch before the transaction: `validate_batch` of usage/persistence.rs
-- and usage/diagnostics.rs. Of an event and of a capture there is what the checks read.
use abyss_backend.Common.{
  ℕ, Bool, true, false, not, String, List, [], ◌∷◌, map, ltb, nat_eq, list_eq, length, contains,
  Result, ok, ◌>>=◌, ◌>>◌, traverse,
}
use abyss_backend.Errors.{AppError, reject_if}
use abyss_backend.Search.Text.{Text}
use abyss_backend.Search.Text.Trimming.{trim}
use abyss_backend.Usage.Attachments.{
  IngestImageAttachment, ValidatedImageAttachment, Codec, validate_image_attachments,
}
pub mod Batches
mod Tests

pub record IngestDiagnosticCapture : Type 0 where
  pub capture_id : Text
  pub event_ids : List Text

pub record IngestUsageEvent : Type 0 where
  pub event_id : Text
  pub attachments : List IngestImageAttachment

pub record IngestEventsRequest : Type 0 where
  pub events : List IngestUsageEvent
  pub diagnostic_captures : List IngestDiagnosticCapture

abbrev pub is_empty {ℓ} : {A : Type ℓ} → List A → Bool
is_empty [] = true
is_empty (x ∷ xs) = false

-- The loop over the events of a capture. `unique_event_ids` are those so far.
unfoldable pub check_links : List Text → List Text → List Text → Result AppError (Unit {0})
check_links request_event_ids unique_event_ids [] = ok tt
check_links request_event_ids unique_event_ids (event_id ∷ event_ids) =
    reject_if (not (contains request_event_ids event_id))
      "diagnostic capture event_ids must reference events in the same ingest request"
    >> (reject_if (contains unique_event_ids event_id) "diagnostic capture event_ids must be unique"
        >> check_links request_event_ids (event_id ∷ unique_event_ids) event_ids)

unfoldable pub validate_event_correlation :
    IngestDiagnosticCapture → List Text → Result AppError (Unit {0})
unfolding check_links trim
validate_event_correlation capture request_event_ids =
    reject_if (is_empty (trim capture.capture_id)) "diagnostic capture_id must not be empty"
    >> (reject_if (is_empty capture.event_ids)
          "diagnostic capture must reference at least one event"
        >> check_links request_event_ids [] capture.event_ids)

-- The loop over the captures. `capture_ids` are those so far.
unfoldable pub check_captures :
    List Text → List Text → List IngestDiagnosticCapture → Result AppError (Unit {0})
unfolding validate_event_correlation
check_captures request_event_ids capture_ids [] = ok tt
check_captures request_event_ids capture_ids (capture ∷ captures) =
    validate_event_correlation capture request_event_ids
    >> (reject_if (contains capture_ids capture.capture_id)
          "diagnostic capture ids must be unique within one ingest request"
        >> check_captures request_event_ids (capture.capture_id ∷ capture_ids) captures)

abbrev pub event_ids : IngestEventsRequest → List Text
event_ids request = map (λ (event : IngestUsageEvent). event.event_id) request.events

abbrev pub validate_event :
    Codec → IngestUsageEvent → Result AppError (List ValidatedImageAttachment)
validate_event codec event = validate_image_attachments codec event.attachments

-- `exceeds` is the message about a list that is longer than the maximum.
module _ (exceeds : String → ℕ → String) where
  -- What follows the attachments.
  unfoldable pub check_diagnostics : IngestEventsRequest → ℕ → Result AppError (Unit {0})
  unfolding check_captures
  check_diagnostics request max_batch_size =
      reject_if (ltb max_batch_size (length request.diagnostic_captures))
        (exceeds "diagnostic captures batch size" max_batch_size)
      >> check_captures (event_ids request) [] request.diagnostic_captures

  unfoldable pub validate_batch :
      Codec → IngestEventsRequest → ℕ → Result AppError (List (List ValidatedImageAttachment))
  unfolding check_diagnostics
  validate_batch codec request max_batch_size =
      reject_if (ltb max_batch_size (length request.events))
        (exceeds "events batch size" max_batch_size)
      >> (traverse (validate_event codec) request.events >>= λ attachments.
          check_diagnostics request max_batch_size >> ok attachments)
