-- ===== src/Search/Query.antt =====
-- The validation of search queries: search/mod.rs. The numbers of a query are of 32 bits.
use Prim.Native.String.{◌++◌ as str_append}
use abyss_backend.Common.{
  ℕ, ◌+◌, ◌-◌, ◌*◌, ◌^◌, Bool, true, false, not, ◌&&◌, ◌||◌, String, List, [], ◌∷◌, map, Option,
  none, some, ltb, leb, ◌==◌, nat_eq, list_eq, if◌then◌else◌, length, sort_by, is_some, unwrap_or,
  map_option, Result, ok, err, ◌>>=◌, ◌>>◌, traverse,
}
use abyss_backend.Errors.{AppError, validation, reject_if}
use abyss_backend.Search.Text.{Text, codes}
use abyss_backend.Search.Text.Trimming.{trim}
use abyss_backend.Search.Text.Ordering.{text_le}
pub mod Acceptance
pub mod Lists
mod Tests

abbrev pub default_page_size : ℕ
default_page_size = 20

abbrev pub max_page_size : ℕ
max_page_size = 50

abbrev pub max_query_characters : ℕ
max_query_characters = 256

abbrev pub max_filter_characters : ℕ
max_filter_characters = 256

abbrev pub max_result_window : ℕ
max_result_window = 10_000

abbrev pub u32_bound : ℕ
u32_bound = 2 ^ 32

pub record SessionSearchQuery : Type 0 where
  pub q : Text
  pub from : Option ℕ
  pub to : Option ℕ
  pub agent_name : List Text
  pub llm_provider : List Text
  pub llm_model : List Text
  pub event_type : Option Text
  pub page : Option ℕ
  pub page_size : Option ℕ

pub record ValidatedSearchQuery : Type 0 where
  pub text : Text
  pub from : Option ℕ
  pub to : Option ℕ
  pub agent_names : List Text
  pub llm_providers : List Text
  pub llm_models : List Text
  pub event_type : Option Text
  pub page : ℕ
  pub page_size : ℕ
  pub offset : ℕ

abbrev pub is_empty : Text → Bool
is_empty [] = true
is_empty (c ∷ text) = false

unfoldable pub normalized_required : Text → String → ℕ → Result AppError Text
normalized_required value field maximum =
    let trimmed = trim value in
    reject_if (is_empty trimmed) (str_append field " must not be empty")
    >> (reject_if (ltb maximum (length trimmed))
          (str_append field " must not exceed 256 characters")
        >> ok trimmed)

unfoldable pub normalized_query : Text → Result AppError Text
unfolding normalized_required
normalized_query value = normalized_required value "q" max_query_characters

unfoldable pub normalized_optional : Option Text → String → Result AppError (Option Text)
unfolding normalized_required
normalized_optional none field = ok none
normalized_optional (some value) field =
    normalized_required value field max_filter_characters >>= λ v. ok (some v)

-- `Vec::dedup`: of equal neighbours only the first stays.
unfoldable pub dedup_after : Text → List Text → List Text
dedup_after last [] = []
dedup_after last (text ∷ texts) =
    let same = dedup_after last texts in
    let other = text ∷ dedup_after text texts in if last == text then same else other

unfoldable pub dedup : List Text → List Text
unfolding dedup_after
dedup [] = []
dedup (text ∷ texts) = text ∷ dedup_after text texts

unfoldable pub normalized_list : List Text → String → Result AppError (List Text)
unfolding normalized_required dedup
normalized_list values field =
    traverse (λ value. normalized_required value field max_filter_characters) values
    >>= λ normalized. ok (dedup (sort_by text_le normalized))

-- `checked_mul`, `checked_add`
abbrev pub checked : ℕ → Result AppError ℕ
checked n = if ltb n u32_bound then ok n else err (validation "search page is too large")

abbrev pub is_misordered : Option ℕ → Option ℕ → Bool
is_misordered (some from) (some to) = leb to from
is_misordered _ _ = false

abbrev is_unknown_type : Option Text → Bool
is_unknown_type none = false
is_unknown_type (some value) = not (value == codes "request" || value == codes "response")

-- The offset of the page, within the window of results.
unfoldable pub page_offset : ℕ → ℕ → Result AppError ℕ
page_offset page page_size =
    reject_if (page == 0) "page must be at least 1"
    >> (reject_if (page_size == 0 || ltb max_page_size page_size)
          "page_size must be between 1 and 50"
        >> (checked ((page - 1) * page_size) >>= λ offset.
            checked (offset + page_size) >>= λ window_end.
            reject_if (ltb max_result_window window_end)
              "search results are limited to the first 10000 matches"
            >> ok offset))

unfoldable pub validated_type : Option Text → Result AppError (Option Text)
unfolding normalized_optional
validated_type event_type = normalized_optional event_type "event_type" >>= λ value.
    reject_if (is_unknown_type value) "event_type must be request or response" >> ok value

unfoldable pub validate : SessionSearchQuery → Result AppError ValidatedSearchQuery
unfolding normalized_query page_offset validated_type normalized_list
validate query =
    let page = unwrap_or query.page 1 in
    let page_size = unwrap_or query.page_size default_page_size in
    normalized_query query.q >>= λ text.
    reject_if (is_misordered query.from query.to) "from must be earlier than to"
    >> (page_offset page page_size >>= λ offset. validated_type query.event_type >>= λ event_type.
        normalized_list query.agent_name "agent_name" >>= λ agent_names.
        normalized_list query.llm_provider "llm_provider" >>= λ llm_providers.
        normalized_list query.llm_model "llm_model" >>= λ llm_models. ok (record {
          text = text;
          from = query.from;
          to = query.to;
          agent_names = agent_names;
          llm_providers = llm_providers;
          llm_models = llm_models;
          event_type = event_type;
          page = page;
          page_size = page_size;
          offset = offset;
        }))
