-- ===== src/Usage/Filters/Values.antt =====
-- What the shared filters keep (usage/persistence.rs).
use abyss_backend.Common.{
  not, ◌&&◌, List, [], ◌∷◌, map, ◌≡◌, refl, ap, ◌∙◌, inl, inr, arith, nat_eq, list_eq, ==-cases,
  keep, contains, Distinct, Sorted,
}
use abyss_backend.Search.Text.{Text}
use abyss_backend.Search.Text.Trimming.{trim}
use abyss_backend.Search.Text.Ordering.{text_le}
use abyss_backend.Search.Query.Lists.{dedup-sort}
use abyss_backend.Usage.Filters.{is_empty, is_blank, distinct, exact_values_filter}

contains-trimmed :
    (values : List Text) (t : Text)
    → contains (map trim (keep (λ value. not (is_blank value)) values)) t
      ≡ (contains (map trim values) t && not (is_empty t))
contains-trimmed [] t = refl
contains-trimmed (value ∷ values) t = elim (==-cases (trim value) t) [
  | inl (_, q) ↦ ground (arith, contains-trimmed values t, ap is_empty q)
  | inr (p, _) ↦ ground (arith, contains-trimmed values t, p)
]

-- A filter of exact values has them in ascending order and each once: those that are not blank,
-- without the whitespace around them.
pub exact_values_filter-Sorted :
    (values : List Text)
    → Sorted text_le (exact_values_filter values)
      × Distinct (exact_values_filter values)
      × ((t : Text)
          → contains (exact_values_filter values) t
            ≡ (contains (map trim values) t && not (is_empty t)))
unfolding exact_values_filter distinct
exact_values_filter-Sorted values =
    let (s, d, c) = dedup-sort (map trim (keep (λ value. not (is_blank value)) values)) in
    (s, d, (λ t. c t ∙ contains-trimmed values t))
