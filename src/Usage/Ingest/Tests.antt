-- ===== src/Usage/Ingest/Tests.antt =====
-- The checks of a batch of one event and one capture.
use abyss_backend.Common.{ℕ, String, [], ◌∷◌, ◌≡◌, ◌↔◌, some, ok, err, refl, nat_eq, list_eq}
use abyss_backend.Errors.{validation}
use abyss_backend.Search.Text.{codes}
use abyss_backend.Usage.Attachments.{Codec}
use abyss_backend.Usage.Ingest.{
  IngestDiagnosticCapture, IngestEventsRequest, validate_batch, check_links,
}
use abyss_backend.Usage.Ingest.Batches.{IsAccepted, validate_batch-IsAccepted}
use Prim.Native.String.{◌++◌ as str_append}

abbrev plain : Codec
plain = record {
  base64_decode = λ encoded. some encoded;
  hex_decode = λ text. some text;
  hex_encode = λ bytes. bytes;
  digest = λ bytes. bytes;
}

abbrev exceeds : String → ℕ → String
exceeds name maximum = str_append name " must be <= 10"

abbrev capture : IngestDiagnosticCapture
capture = record { capture_id = codes "diag"; event_ids = codes "evt" ∷ [] }

abbrev request : IngestEventsRequest
request = record {
  events = record { event_id = codes "evt"; attachments = [] } ∷ [];
  diagnostic_captures = capture ∷ [];
}

validate_batch-IsAccepted_example :
    (validate_batch exceeds plain request 10 ≡ ok ([] ∷ [])) ↔ IsAccepted plain request 10 ([] ∷ [])
validate_batch-IsAccepted_example = validate_batch-IsAccepted exceeds plain request 10 ([] ∷ [])

linked_twice :
    check_links (codes "evt" ∷ []) [] (codes "evt" ∷ codes "evt" ∷ [])
    ≡ err (validation "diagnostic capture event_ids must be unique")
unfolding check_links
linked_twice = refl
