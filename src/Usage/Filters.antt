-- ===== src/Usage/Filters.antt =====
-- The normalization that both storage backends share: usage/persistence.rs.
use abyss_backend.Common.{
  ℕ, ◌-◌, ◌^◌, min, max, Bool, true, false, not, ◌||◌, String, List, [], ◌∷◌, map, Option, none,
  some, ◌==◌, nat_eq, list_eq, if◌then◌else◌, keep, any, sort_by, contains, unwrap_or, Result, ok,
  err, ℤ, pos, negsuc,
}
use abyss_backend.Errors.{AppError, validation}
use abyss_backend.Search.Text.{Text, codes}
use abyss_backend.Search.Text.Trimming.{trim}
use abyss_backend.Search.Text.Ordering.{text_le}
use abyss_backend.Search.Pattern.{to_ascii_lowercase}
use abyss_backend.Search.Query.{dedup}
use abyss_backend.Usage.Preview.{split}
pub mod Values

abbrev pub is_empty : Text → Bool
is_empty [] = true
is_empty (c ∷ text) = false

abbrev pub is_blank : Text → Bool
is_blank value = is_empty (trim value)

unfoldable pub distinct : List Text → List Text
unfolding dedup
distinct values = dedup (sort_by text_le values)

unfoldable pub exact_values_filter : List Text → List Text
unfolding distinct
exact_values_filter values = distinct (map trim (keep (λ value. not (is_blank value)) values))

unfoldable pub validate_event_type : Text → Result AppError Text
validate_event_type value =
    let lowercase = map to_ascii_lowercase (trim value) in
    if lowercase == codes "request"
    then ok (codes "request")
    else if lowercase == codes "response"
    then ok (codes "response")
    else err (validation "event_type must be request or response")

-- The names of a dimension that were kept from before.
abbrev pub dimension_name : Text → Text
dimension_name value =
    if value == codes "employee"
    then codes "user"
    else if value == codes "llm_provider"
    then codes "provider"
    else if value == codes "llm_model"
    then codes "model"
    else value

abbrev pub dimensions : List Text
dimensions =
    codes "day"
    ∷ codes "user"
    ∷ codes "device"
    ∷ codes "agent"
    ∷ codes "provider"
    ∷ codes "model"
    ∷ codes "event_type"
    ∷ []

abbrev pub default_dimensions : List Text
default_dimensions = codes "user" ∷ codes "agent" ∷ codes "provider" ∷ codes "model" ∷ []

abbrev or_default : List Text → List Text
or_default [] = default_dimensions
or_default (name ∷ names) = name ∷ names

unfoldable pub parse_group_by : Option Text → List Text
unfolding split
parse_group_by raw = or_default (
    keep (contains dimensions) (
      map dimension_name (
        keep (λ value. not (is_empty value))
          (map trim (split b',' (unwrap_or raw (codes "user,agent,provider,model")))))))

-- `normalize_limit` with a fallback and a maximum that are positive.
unfoldable pub normalize_limit : Option ℤ → ℕ → ℕ → ℕ
normalize_limit none fallback maximum = min (max fallback 1) maximum
normalize_limit (some (negsuc n)) fallback maximum = 1
normalize_limit (some (pos n)) fallback maximum = min (max n 1) maximum

unfoldable pub escape_like_pattern : Text → Text
escape_like_pattern [] = []
escape_like_pattern (c ∷ text) =
    let escaped = c ∷ escape_like_pattern text in
    if c == 92 || c == 37 || c == 95 then 92 ∷ escaped else escaped
