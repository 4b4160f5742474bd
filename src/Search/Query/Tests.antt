-- ===== src/Search/Query/Tests.antt =====
-- The validation of one query, and its theorems on it.
use abyss_backend.Common.{
  true, List, [], ◌∷◌, none, some, ◌≡◌, refl, arith, ok, is_ok, list_eq, nat_eq,
}
use abyss_backend.Search.Text.{Text, codes}
use abyss_backend.Search.Text.Trimming.{trim}
use abyss_backend.Search.Text.Ordering.{text_le}
use abyss_backend.Search.Query.{
  SessionSearchQuery, normalized_required, normalized_list, dedup, dedup_after, validate,
}
use abyss_backend.Search.Query.Acceptance.{is_acceptable, validate-is_acceptable}

abbrev query : SessionSearchQuery
query = record {
  q = codes " timeout ";
  from = some 3;
  to = some 5;
  agent_name = codes "codex" ∷ [];
  llm_provider = [];
  llm_model = [];
  event_type = some (codes "request");
  page = some 500;
  page_size = none;
}

query_is_acceptable : is_acceptable query ≡ true
unfolding trim
query_is_acceptable = refl

validate-is_acceptable_example : is_ok (validate query) ≡ is_acceptable query
validate-is_acceptable_example = validate-is_acceptable query (omega arith) (omega arith)

abbrev agents : List Text
agents = codes "codex" ∷ codes " claude-code" ∷ codes "codex " ∷ []

agents_normalized :
    normalized_list agents "agent_name" ≡ ok (codes "claude-code" ∷ codes "codex" ∷ [])
unfolding normalized_list normalized_required dedup dedup_after trim text_le
agents_normalized = refl
