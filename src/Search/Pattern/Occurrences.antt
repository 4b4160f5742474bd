-- ===== src/Search/Pattern/Occurrences.antt =====
-- `Pattern::occurrences` and `Pattern::matches` of pattern.rs.
use abyss_backend.Common.{
  ℕ, ◌+◌, ◌≤◌, List, [], ◌∷◌, map, ◌≡◌, refl, sym, ap, ◌∙◌, inl, inr, ◌==◌, nat_eq, arith, length,
  All, all, Bool-cases, length-map, pair_eq, not,
}
use abyss_backend.Search.Text.{Text}
use abyss_backend.Search.Pattern.{
  Range, Pattern, is_ascii, to_ascii_lowercase, fold, fold_char, new, matches, occurrences,
}
use abyss_backend.Search.Pattern.Offsets.{Ascending}
use abyss_backend.Search.Pattern.Scan.{
  found_at, span, scan_starts-found_at, StandsAt, Covers, found_at-StandsAt, found_at-Ascending,
  found_at-Covers, holds-found_at,
}

module _ (to_lowercase : ℕ → List ℕ) where
  -- Folding keeps the number of characters.
  pub length-fold : (text : Text) → length (fold to_lowercase text) ≡ length text
  unfolding fold
  length-fold text = elim (Bool-cases (all is_ascii text)) [
    | inl p ↦ rw p (length-map to_ascii_lowercase text)
    | inr q ↦ rw q (length-map (fold_char to_lowercase) text)
  ]

  occurrences-found_at :
      (pattern : Pattern) (text : Text)
      → occurrences to_lowercase pattern text
        ≡ map (span pattern.characters) (found_at pattern.folded 0 0 (fold to_lowercase text))
  unfolding occurrences
  occurrences-found_at pattern text =
      scan_starts-found_at pattern.folded pattern.characters (fold to_lowercase text) 0
        (fold to_lowercase text) [] [] 0 0 refl (omega arith) (omega arith)

-- A range of the folded text that the folded query fills.
abbrev pub IsMatch : Text → Text → Range → Type 0
IsMatch pattern text r = StandsAt pattern text r.0 × (r.1 ≡ r.0 + length pattern)

All-span :
    (n : ℕ) (P : ℕ → Type 0) (xs : List ℕ)
    → All P xs
    → All (λ (r : Range). P r.0 × (r.1 ≡ r.0 + n)) (map (span n) xs)
All-span n P [] h = tt
All-span n P (x ∷ xs) h = ((h.0, refl), All-span n P xs h.1)

module _ (to_lowercase : ℕ → List ℕ) (query text : Text) where
  abbrev pattern : Pattern
  pattern = new to_lowercase query

  abbrev folded : Text
  folded = fold to_lowercase text

  abbrev found : List Range
  found =
      map (span (length (fold to_lowercase query))) (found_at (fold to_lowercase query) 0 0 folded)

  occurrences-new : occurrences to_lowercase pattern text ≡ found
  unfolding new
  occurrences-new = occurrences-found_at to_lowercase (new to_lowercase query) text

  query_nonempty : 1 ≤ length query → 1 ≤ length (fold to_lowercase query)
  query_nonempty h = omega (arith, h, length-fold to_lowercase query)

  -- The occurrences of a query that is not empty are sorted and do not overlap.
  pub occurrences-Ascending : 1 ≤ length query → Ascending 0 (occurrences to_lowercase pattern text)
  occurrences-Ascending h = rw occurrences-new (
      found_at-Ascending (fold to_lowercase query) (fold to_lowercase query) (query_nonempty h) 0
        folded 0)

  -- Each occurrence of a query that is not empty is a range of characters at which the folded text
  -- holds the folded query: counting the characters between byte positions finds the right ones.
  pub occurrences-IsMatch :
      1 ≤ length query
      → All (IsMatch (fold to_lowercase query) folded) (occurrences to_lowercase pattern text)
  occurrences-IsMatch h = rw occurrences-new (
      All-span (length (fold to_lowercase query)) (StandsAt (fold to_lowercase query) folded)
        (found_at (fold to_lowercase query) 0 0 folded)
        (found_at-StandsAt (fold to_lowercase query) folded (query_nonempty h) 0 [] folded 0 refl
          (omega arith)))

  -- Wherever the folded text holds the folded query, an occurrence covers the place: none is
  -- missed.
  pub occurrences-Covers :
      (p : ℕ)
      → 1 ≤ length query
      → StandsAt (fold to_lowercase query) folded p
      → Covers (occurrences to_lowercase pattern text) p
  occurrences-Covers p h stands = rw occurrences-new (
      found_at-Covers (fold to_lowercase query) folded (query_nonempty h) 0 [] folded 0 p refl
        (omega arith) (omega arith) stands)

  -- A text matches a query that is not empty when it has an occurrence of it, and only then.
  pub matches-occurrences :
      1 ≤ length query
      → matches to_lowercase pattern text
        ≡ not (length (occurrences to_lowercase pattern text) == 0)
  unfolding matches new
  matches-occurrences h =
      holds-found_at (fold to_lowercase query) folded 0 (query_nonempty h)
      ∙ ap (λ n. not (n == 0))
          (sym (
              length-map (span (length (fold to_lowercase query)))
                (found_at (fold to_lowercase query) 0 0 folded))
            ∙ ap length (sym occurrences-new))

  -- The occurrences of a query that is not empty are sorted, do not overlap, and are ranges of
  -- characters at which the folded text holds the folded query. There is one exactly if the text
  -- matches the query.
  pub occurrences-matching :
      1 ≤ length query
      → Ascending 0 (occurrences to_lowercase pattern text)
        × All (IsMatch (fold to_lowercase query) folded) (occurrences to_lowercase pattern text)
        × (matches to_lowercase pattern text
            ≡ not (length (occurrences to_lowercase pattern text) == 0))
  occurrences-matching h = (occurrences-Ascending h, occurrences-IsMatch h, matches-occurrences h)
