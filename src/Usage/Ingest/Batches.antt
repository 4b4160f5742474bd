-- ===== src/Usage/Ingest/Batches.antt =====
-- Which ingest batches are accepted (usage/persistence.rs, usage/diagnostics.rs).
use abyss_backend.Common.{
  ℕ, ◌≤◌, Bool, true, false, not, List, [], ◌∷◌, map, ◌≡◌, ◌↔◌, refl, arith, ltb, ltb→le, nat_eq,
  list_eq, length, contains, All, Distinct, Fresh, Fresh-cons, ok, >>_iff, >>=-ok, String, ◌∙◌,
  traverse,
}
use abyss_backend.Errors.Checks.{reject_if_iff}
use abyss_backend.Search.Text.{Text}
use abyss_backend.Search.Text.Trimming.{trim}
use abyss_backend.Usage.Attachments.{Codec, ValidatedImageAttachment}
use abyss_backend.Usage.Ingest.{
  IngestDiagnosticCapture, IngestEventsRequest, is_empty, check_links, validate_event_correlation,
  check_captures, event_ids, validate_event, check_diagnostics, validate_batch,
}

-- The links of a capture are events of the request, each once.
abbrev pub AreLinks : List Text → List Text → Type 0
AreLinks request_ids links = All (λ link. contains request_ids link ≡ true) links × Distinct links

abbrev pub IsCorrelated : List Text → IngestDiagnosticCapture → Type 0
IsCorrelated request_ids capture =
    (is_empty (trim capture.capture_id) ≡ false)
    × (is_empty capture.event_ids ≡ false)
    × AreLinks request_ids capture.event_ids

un_not : (b : Bool) → (not b ≡ false) ↔ (b ≡ true)
un_not b = ((λ h. ground arith), (λ h. ground arith))

check_links_iff :
    (request_ids seen links : List Text)
    → (check_links request_ids seen links ≡ ok tt) ↔ (AreLinks request_ids links × Fresh seen links)
unfolding check_links
check_links_iff request_ids seen [] = ((λ h. ((tt, tt), (λ y e. refl))), (λ h. refl))
check_links_iff request_ids seen (link ∷ links) = (
  (λ h.
      let (known, h1) = (reject_if_iff _ _ _ _).0 h in
      let (new, h2) = (reject_if_iff _ _ _ _).0 h1 in
      let ((all, distinct), fresh) = (check_links_iff request_ids (link ∷ seen) links).0 h2 in
      let (distinct', fresh') = (Fresh-cons seen link links).0 (new, distinct, fresh) in
      (((((un_not _).0 known), all), distinct'), fresh')),
  (λ ((all, distinct), fresh).
      let (new, distinct', fresh') = (Fresh-cons seen link links).1 (distinct, fresh) in
      (reject_if_iff _ _ _ _).1 (
        (un_not _).1 all.0,
        (reject_if_iff _ _ _ _).1
            (new, (check_links_iff request_ids (link ∷ seen) links).1 ((all.1, distinct'), fresh')),
      )),
)

validate_event_correlation_iff :
    (capture : IngestDiagnosticCapture) (request_ids : List Text)
    → (validate_event_correlation capture request_ids ≡ ok tt) ↔ IsCorrelated request_ids capture
unfolding validate_event_correlation
validate_event_correlation_iff capture request_ids = (
  (λ h.
      let (named, h1) = (reject_if_iff _ _ _ _).0 h in
      let (linked, h2) = (reject_if_iff _ _ _ _).0 h1 in
      (named, linked, ((check_links_iff request_ids [] capture.event_ids).0 h2).0)),
  (λ (named, linked, links). (reject_if_iff _ _ _ _).1 (
    named,
    (reject_if_iff _ _ _ _).1 (
      linked,
      (check_links_iff request_ids [] capture.event_ids).1 (links, (λ y e. absurd (cc))),
    ),
  )),
)

abbrev pub capture_ids_of : List IngestDiagnosticCapture → List Text
capture_ids_of captures = map (λ (capture : IngestDiagnosticCapture). capture.capture_id) captures

check_captures_iff :
    (request_ids seen : List Text) (captures : List IngestDiagnosticCapture)
    → (check_captures request_ids seen captures ≡ ok tt) ↔ (
        All (IsCorrelated request_ids) captures
        × Distinct (capture_ids_of captures)
        × Fresh seen (capture_ids_of captures))
unfolding check_captures
check_captures_iff request_ids seen [] = ((λ h. (tt, tt, (λ y e. refl))), (λ h. refl))
check_captures_iff request_ids seen (capture ∷ captures) =
    let id = capture.capture_id in
    let rest = check_captures_iff request_ids (id ∷ seen) captures in
    let cons = Fresh-cons seen id (capture_ids_of captures) in
    (
      (λ h.
          let (this, h1) = (>>_iff _ _ _).0 h in
          let (new, h2) = (reject_if_iff _ _ _ _).0 h1 in
          let (all, distinct, fresh) = rest.0 h2 in
          let (distinct', fresh') = cons.0 (new, distinct, fresh) in
          (((validate_event_correlation_iff capture request_ids).0 this, all), distinct', fresh')),
      (λ (all, distinct, fresh).
          let (new, distinct', fresh') = cons.1 (distinct, fresh) in
          (>>_iff _ _ _).1 (
            (validate_event_correlation_iff capture request_ids).1 all.0,
            (reject_if_iff _ _ _ _).1 (new, rest.1 (all.1, distinct', fresh')),
          )),
    )

-- What makes a batch one that is accepted, with its images.
pub record IsAccepted (codec : Codec) (request : IngestEventsRequest) (maximum : ℕ)
    (attachments : List (List ValidatedImageAttachment)) : Type 0 where
  pub few_events : length request.events ≤ maximum
  pub few_captures : length request.diagnostic_captures ≤ maximum
  pub images : traverse (validate_event codec) request.events ≡ ok attachments
  pub correlated : All (IsCorrelated (event_ids request)) request.diagnostic_captures
  pub distinct : Distinct (capture_ids_of request.diagnostic_captures)

check_diagnostics_iff :
    (exceeds : String → ℕ → String) (request : IngestEventsRequest) (maximum : ℕ)
    → (check_diagnostics exceeds request maximum ≡ ok tt) ↔ (
        (length request.diagnostic_captures ≤ maximum)
        × All (IsCorrelated (event_ids request)) request.diagnostic_captures
        × Distinct (capture_ids_of request.diagnostic_captures))
unfolding check_diagnostics
check_diagnostics_iff exceeds request maximum =
    let captures = request.diagnostic_captures in
    let each = check_captures_iff (event_ids request) [] captures in
    (
      (λ h.
          let (few, h1) = (reject_if_iff _ _ _ _).0 h in
          let (all, distinct, _) = each.0 h1 in
          (ltb→le maximum (length captures) few, all, distinct)),
      (λ (few, all, distinct).
          (reject_if_iff _ _ _ _).1
            (ground (arith, few), each.1 (all, distinct, (λ y e. absurd (cc))))),
    )

-- A batch is accepted, with the validated images of its events, exactly if neither its events nor
-- its captures are more than the maximum, the images of every event are valid, and every capture
-- has a name that is not blank and no other has, and links at least one event, each an event of the
-- batch and none twice.
pub validate_batch-IsAccepted :
    (exceeds : String → ℕ → String) (codec : Codec) (request : IngestEventsRequest) (maximum : ℕ)
    → (attachments : List (List ValidatedImageAttachment))
    → (validate_batch exceeds codec request maximum ≡ ok attachments)
      ↔ IsAccepted codec request maximum attachments
unfolding validate_batch
validate_batch-IsAccepted exceeds codec request maximum attachments = (
  (λ h.
      let (few, h1) = (reject_if_iff _ _ _ _).0 h in
      let (found, images, h2) = >>=-ok _ _ h1 in
      let (checked, same) = (>>_iff _ _ _).0 h2 in
      let (few', all, distinct) = (check_diagnostics_iff exceeds request maximum).0 checked in
      record {
        few_events = ltb→le maximum (length request.events) few;
        few_captures = few';
        images = images ∙ same;
        correlated = all;
        distinct = distinct;
      }),
  (λ (v : IsAccepted codec request maximum attachments).
      let few : ltb maximum (length request.events) ≡ false = ground (arith, v.few_events) in
      let checked =
        (check_diagnostics_iff exceeds request maximum).1
          (v.few_captures, v.correlated, v.distinct) in
      (reject_if_iff _ _ _ _).1 (few, rw (v.images) ((>>_iff _ _ _).1 (checked, refl)))),
)
