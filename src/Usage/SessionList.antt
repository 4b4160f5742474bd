-- ===== src/Usage/SessionList.antt =====
-- The session index: usage/session_list.rs. A page number and a page size are of 32 bits, an offset
-- and a count of 64 bits with a sign.
use abyss_backend.Common.{
  ℕ, ◌+◌, ◌-◌, ◌*◌, ◌^◌, min, Bool, true, false, ◌||◌, List, [], ◌∷◌, Option, none, some, ltb, leb,
  ◌==◌, nat_eq, length, unwrap_or, Result, ok, ◌>>◌,
}
use abyss_backend.Errors.{AppError, reject_if}
use abyss_backend.Search.Text.{Text}
use abyss_backend.Search.Query.{is_misordered}
use abyss_backend.Usage.Filters.{exact_values_filter}
pub mod Pages
mod Tests

abbrev pub default_page_size : ℕ
default_page_size = 20

abbrev pub max_page_size : ℕ
max_page_size = 100

abbrev pub i64_max : ℕ
i64_max = 2 ^ 63 - 1

pub record SessionListQuery : Type 0 where
  pub from : Option ℕ
  pub to : Option ℕ
  pub agent_name : List Text
  pub llm_provider : List Text
  pub llm_model : List Text
  pub page : Option ℕ
  pub page_size : Option ℕ

pub record ValidatedSessionListQuery : Type 0 where
  pub from : Option ℕ
  pub to : Option ℕ
  pub agent_names : List Text
  pub llm_providers : List Text
  pub llm_models : List Text
  pub page : ℕ
  pub page_size : ℕ
  pub offset : ℕ

abbrev pub validated : SessionListQuery → ℕ → ℕ → ValidatedSessionListQuery
validated query page page_size = record {
  from = query.from;
  to = query.to;
  agent_names = exact_values_filter query.agent_name;
  llm_providers = exact_values_filter query.llm_provider;
  llm_models = exact_values_filter query.llm_model;
  page = page;
  page_size = page_size;
  offset = min ((page - 1) * page_size) i64_max;
}

unfoldable pub validate : SessionListQuery → Result AppError ValidatedSessionListQuery
unfolding exact_values_filter
validate query =
    let page = unwrap_or query.page 1 in
    let page_size = unwrap_or query.page_size default_page_size in
    reject_if (is_misordered query.from query.to) "from must be earlier than to"
    >> (reject_if (page == 0) "page must be at least 1"
        >> (reject_if (page_size == 0 || ltb max_page_size page_size)
              "page_size must be between 1 and 100"
            >> ok (validated query page page_size)))

pub record SessionListResponse {ℓ} (Item : Type ℓ) : Type ℓ where
  pub total_sessions : ℕ
  pub page : ℕ
  pub page_size : ℕ
  pub has_more : Bool
  pub items : List Item

-- `SessionListResponse::new`
unfoldable pub new_response {ℓ} :
    {Item : Type ℓ} → ValidatedSessionListQuery → ℕ → List Item → SessionListResponse Item
new_response query total_sessions items = record {
  total_sessions = total_sessions;
  page = query.page;
  page_size = query.page_size;
  has_more = ltb (min (query.offset + length items) i64_max) total_sessions;
  items = items;
}
