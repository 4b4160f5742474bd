-- ===== src/Usage/Tests.antt =====
-- The usage endpoints on small inputs, and their theorems on them.
use mathlib.Core.List.{Perm}
use abyss_backend.Common.{
  pos, ℕ, ◌+◌, ◌≤◌, ◌<◌, ◌&&◌, List, [], ◌∷◌, map, none, some, ◌≡◌, ◌⊎◌, refl, arith, ltb, leb, any,
  All, Distinct, Sorted, if◌then◌else◌, ok, nat_eq, list_eq, string_eq,
}
use abyss_backend.Search.Text.{Text, codes, len_utf16, size}
use abyss_backend.Search.Text.Trimming.{trim}
use abyss_backend.Usage.Preview.{
  Run, span, last, Window, Entry, run_range, merge_from, merge, run_ranges, is_shown, cut,
  cut_units, parse, parse_runs, parse_run, parse_usize, index, span_of, split, split_at_char,
}
use abyss_backend.Usage.Preview.Merging.{AreSeparated, asks_for, run_ranges-shown}
use abyss_backend.Usage.Preview.Cuts.{IsCut, cut-IsCut}
use abyss_backend.Usage.Comparison.{
  ComparisonDimension, ComparisonBucket, ComparisonQuery, longest_range, validate, check_buckets,
  any_gap, bad_values, check_filters,
}
use abyss_backend.Usage.Comparison.Partition.{holding, validate-Partition}
use abyss_backend.Usage.Attachments.{
  png, matches_signature, Bytes, IngestImageAttachment, ValidatedImageAttachment, Codec,
  by_position, validate_image_attachments, validate_from, check_position, check_size, decode_sha256,
  optional_content, decode_content, check_content, max_image_attachments_per_event,
  max_image_attachment_bytes_per_event,
}
use abyss_backend.Usage.Attachments.Checked.{declared, kept, IsVerified}
use abyss_backend.Usage.Attachments.Accepted.{
  positions_of, total_bytes, validate_image_attachments-IsVerified,
}

-- "2-5, 4-7,-1" over ten entries
asked_runs :
    parse
      (λ run. "invalid entries run")
      (record { entries = some (codes "2-5, 4-7,-1"); text_preview = none })
    ≡ ok (record { runs = some (span 2 5 ∷ span 4 7 ∷ last 1 ∷ []); text_preview = none })
unfolding parse parse_runs parse_run parse_usize index span_of split split_at_char trim
asked_runs = refl

abbrev runs : List Run
runs = last 1 ∷ span 4 7 ∷ span 2 5 ∷ []

merged_runs : run_ranges 10 runs ≡ (2, 8) ∷ (9, 10) ∷ []
unfolding run_ranges run_range merge merge_from
merged_runs = refl

run_ranges-shown_example :
    AreSeparated (run_ranges 10 runs)
    × ((index : ℕ) → is_shown (run_ranges 10 runs) index ≡ any (asks_for 10 index) runs)
run_ranges-shown_example = run_ranges-shown 10 runs (omega arith)

abbrev entries : List Entry
entries = some (codes "first") ∷ none ∷ some (codes "third") ∷ []

abbrev window : Window
window = record { runs = some (last 1 ∷ []); text_preview = none }

-- The second character has two UTF-16 units, and a limit of two splits none.
cut_inside : cut (some (97 ∷ 128512 ∷ [])) (some 2) ≡ some (97 ∷ [], 3)
unfolding cut cut_units
cut_inside = refl

cut-IsCut_example :
    ((size len_utf16 (97 ∷ 128512 ∷ []) ≤ 2) × (cut (some (97 ∷ 128512 ∷ [])) (some 2) ≡ none))
    ⊎ ((text : Text) × (cut (some (97 ∷ 128512 ∷ [])) (some 2)
          ≡ some (text, size len_utf16 (97 ∷ 128512 ∷ [])))
        × (2 < size len_utf16 (97 ∷ 128512 ∷ []))
        × IsCut 2 (97 ∷ 128512 ∷ []) text)
cut-IsCut_example = cut-IsCut (some (97 ∷ 128512 ∷ [])) 2

abbrev bucket : ℕ → ℕ → ComparisonBucket
bucket start end = record { start = start; end = end }

abbrev query : ComparisonQuery
query = record {
  group_by = some ComparisonDimension.agent;
  buckets = bucket 5 9 ∷ bucket 9 12 ∷ [];
  filters = record {
    agent = [];
    model = codes "gpt-5" ∷ [];
    provider = [];
    platform = [];
    session = [];
  };
}

query_accepted : validate query ≡ ok tt
unfolding validate check_buckets any_gap bad_values check_filters trim
query_accepted = refl

validate-Partition_example :
    (start : ℕ) × (end : ℕ) × (start < end)
    × (end ≤ start + longest_range)
    × ((time : ℕ) → holding time query.buckets ≡ (if leb start time && ltb time end then 1 else 0))
validate-Partition_example = validate-Partition query query_accepted

-- A codec that takes text for what it encodes, with one digest.
abbrev digest : Bytes
digest = codes "0123456789abcdef0123456789abcdef"

abbrev plain : Codec
plain = record {
  base64_decode = λ encoded. some encoded;
  hex_decode = λ text. some text;
  hex_encode = λ bytes. bytes;
  digest = λ bytes. digest;
}

abbrev image : ℕ → IngestImageAttachment
image position = record {
  position = pos position;
  media_type = png;
  byte_size = 8;
  sha256 = digest;
  content_base64 = some (137 ∷ 80 ∷ 78 ∷ 71 ∷ 13 ∷ 10 ∷ 26 ∷ 10 ∷ []);
}

abbrev validated : ℕ → ValidatedImageAttachment
validated position = record {
  position = position;
  media_type = png;
  byte_size = 8;
  sha256 = digest;
  content = some (137 ∷ 80 ∷ 78 ∷ 71 ∷ 13 ∷ 10 ∷ 26 ∷ 10 ∷ []);
}

images_accepted :
    validate_image_attachments plain (image 1 ∷ image 0 ∷ []) ≡ ok (validated 0 ∷ validated 1 ∷ [])
unfolding validate_image_attachments validate_from check_position check_size decode_sha256
    optional_content decode_content check_content matches_signature trim
images_accepted = refl

validate_image_attachments-IsVerified_example :
    Perm
      (map (declared plain) (image 1 ∷ image 0 ∷ []))
      (map (kept plain) (validated 0 ∷ validated 1 ∷ []))
    × All (IsVerified plain) (validated 0 ∷ validated 1 ∷ [])
    × Sorted by_position (validated 0 ∷ validated 1 ∷ [])
    × Distinct (positions_of (validated 0 ∷ validated 1 ∷ []))
    × (2 ≤ max_image_attachments_per_event)
    × (total_bytes (validated 0 ∷ validated 1 ∷ []) ≤ max_image_attachment_bytes_per_event)
validate_image_attachments-IsVerified_example =
    validate_image_attachments-IsVerified plain (image 1 ∷ image 0 ∷ [])
      (validated 0 ∷ validated 1 ∷ []) images_accepted
