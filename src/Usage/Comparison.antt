-- ===== src/Usage/Comparison.antt =====
-- Comparison queries: usage/comparison.rs. Instants count nanoseconds.
use abyss_backend.Common.{
  ℕ, ◌+◌, ◌*◌, Bool, true, false, not, ◌&&◌, ◌||◌, String, List, [], ◌∷◌, Option, none, some, ltb,
  leb, ◌==◌, nat_eq, length, any, first, last, map_or, map_option, Result, ok, err, ◌>>◌,
}
use abyss_backend.Errors.{AppError, validation, reject_if}
use abyss_backend.Search.Text.{Text, len_utf8, size}
use abyss_backend.Search.Text.Trimming.{trim}
pub mod Partition

pub data ComparisonDimension : Type 0 where
  agent model provider platform : ComparisonDimension

pub record ComparisonFilters : Type 0 where
  pub agent : List Text
  pub model : List Text
  pub provider : List Text
  pub platform : List Text
  pub session : List Text

pub record ComparisonBucket : Type 0 where
  pub start : ℕ
  pub end : ℕ

pub record ComparisonQuery : Type 0 where
  pub group_by : Option ComparisonDimension
  pub buckets : List ComparisonBucket
  pub filters : ComparisonFilters

-- `Duration::days(367)`
abbrev pub longest_range : ℕ
longest_range = 367 * 86_400 * 1_000_000_000

abbrev is_empty : Text → Bool
is_empty [] = true
is_empty (c ∷ text) = false

-- `windows(2)` with the test of a pair.
unfoldable pub any_gap : List ComparisonBucket → Bool
any_gap [] = false
any_gap (bucket ∷ []) = false
any_gap (bucket ∷ next ∷ buckets) = not (bucket.end == next.start) || any_gap (next ∷ buckets)

unfoldable pub bad_values : List Text → Bool
unfolding trim
bad_values values =
    ltb 100 (length values)
    || any (λ value. is_empty (trim value) || ltb 4096 (size len_utf8 value)) values

-- The loop over the filters.
unfoldable pub check_filters : List (List Text) → Result AppError (Unit {0})
unfolding bad_values
check_filters [] = ok tt
check_filters (values ∷ filters) =
    reject_if (bad_values values)
      "filters must contain at most 100 non-empty values of at most 4096 bytes"
    >> check_filters filters

abbrev compared_values : ComparisonFilters → ComparisonDimension → List Text
compared_values filters agent = filters.agent
compared_values filters model = filters.model
compared_values filters provider = filters.provider
compared_values filters platform = filters.platform

abbrev is_filled : List Text → Bool
is_filled [] = false
is_filled (value ∷ values) = true

-- The checks behind the first and the last bucket.
unfoldable pub check_buckets :
    ComparisonQuery → ComparisonBucket → ComparisonBucket → Result AppError (Unit {0})
unfolding any_gap check_filters
check_buckets query first_bucket last_bucket =
    reject_if
      (ltb 400 (length query.buckets) || ltb (first_bucket.start + longest_range) last_bucket.end)
      "comparison range must not exceed 367 days or 400 buckets"
    >> (reject_if
          (any (λ bucket. leb bucket.end bucket.start) query.buckets || any_gap query.buckets)
          "time buckets must be ordered, contiguous and non-empty"
        >> (check_filters (
              query.filters.agent ∷ query.filters.model ∷ query.filters.provider
              ∷ query.filters.platform ∷ query.filters.session ∷ [])
            >> reject_if
                (map_or false (λ dimension. is_filled (compared_values query.filters dimension))
                  query.group_by)
                "a comparison dimension cannot also be a filter"))

pub check_ends :
    ComparisonQuery → Option ComparisonBucket → Option ComparisonBucket → Result AppError (Unit {0})
unfolding check_buckets
check_ends query (some first_bucket) (some last_bucket) =
    check_buckets query first_bucket last_bucket
check_ends query (some first_bucket) none = err (validation "at least one time bucket is required")
check_ends query none last_bucket = err (validation "at least one time bucket is required")

unfoldable pub validate : ComparisonQuery → Result AppError (Unit {0})
unfolding check_ends
validate query = check_ends query (first query.buckets) (last query.buckets)
