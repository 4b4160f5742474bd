-- ===== src/Usage/SessionList/Tests.antt =====
-- The third page of a list of sessions.
use abyss_backend.Common.{ℕ, ◌*◌, ◌≤◌, List, [], ◌∷◌, none, some, ◌≡◌, refl, arith, ltb, length, ok}
use abyss_backend.Search.Text.{codes}
use abyss_backend.Search.Text.Trimming.{trim}
use abyss_backend.Search.Query.{dedup, dedup_after}
use abyss_backend.Search.Text.Ordering.{text_le}
use abyss_backend.Usage.Filters.{exact_values_filter, distinct}
use abyss_backend.Usage.SessionList.{SessionListQuery, max_page_size, validate, validated}
use abyss_backend.Usage.SessionList.Pages.{page_of, validate-has_more}

abbrev query : SessionListQuery
query = record {
  from = none;
  to = none;
  agent_name = codes "codex" ∷ codes " claude-code " ∷ codes "codex" ∷ codes " " ∷ [];
  llm_provider = [];
  llm_model = [];
  page = some 3;
  page_size = some 2;
}

names_normalized : exact_values_filter query.agent_name ≡ codes "claude-code" ∷ codes "codex" ∷ []
unfolding exact_values_filter distinct dedup dedup_after trim text_le
names_normalized = refl

query_accepted : validate query ≡ ok (validated query 3 2)
unfolding validate
query_accepted = refl

abbrev sessions : List ℕ
sessions = 1 ∷ 2 ∷ 3 ∷ 4 ∷ 5 ∷ []

validate-has_more_example :
    (1 ≤ (validated query 3 2).page)
    × (1 ≤ (validated query 3 2).page_size)
    × ((validated query 3 2).page_size ≤ max_page_size)
    × ((page_of (validated query 3 2) sessions).has_more
        ≡ ltb ((validated query 3 2).page * (validated query 3 2).page_size) (length sessions))
validate-has_more_example =
    validate-has_more query (validated query 3 2) sessions query_accepted (omega arith)
