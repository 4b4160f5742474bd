-- ===== src/Search/InSession/Laws.antt =====
-- The matched texts that `from_hits` of in_session.rs names.
use mathlib.Core.List.Perm
use abyss_backend.Common.{
  ℕ, Bool, true, false, not, ◌||◌, List, [], ◌∷◌, map, Option, none, ◌≡◌, refl, sym, ap, ◌∙◌, inl,
  inr, leb, ◌==◌, nat_eq, ==-cases, Bool-cases, Option-cases, arith, if◌then◌else◌, take, keep,
  lookup, contains, contains-Perm, sort_by, sort_by-perm,
}
use abyss_backend.Search.Text.{Text}
use abyss_backend.Search.Pattern.{Range}
use abyss_backend.Search.InSession.{
  max_in_session_hits, InSessionHit, MatchedText, dedupe, ordered_ids, matched_texts, from_hits,
}

contains-dedupe : (ids : List ℕ) (id : ℕ) → contains (dedupe ids) id ≡ contains ids id
unfolding dedupe
contains-dedupe [] id = refl
contains-dedupe (x ∷ ids) id = elim (Bool-cases (contains ids x)) [
  | inr q ↦ rw q (ap (λ b. x == id || b) (contains-dedupe ids id))
  | inl p ↦ elim (==-cases x id) [
    | inl (same, e) ↦ rw (p, same) (contains-dedupe ids id ∙ ap (contains ids) (sym e) ∙ p)
    | inr (other, n) ↦ rw (p, other) (contains-dedupe ids id)
  ]
]

contains-ordered_ids : (ids : List ℕ) (id : ℕ) → contains (ordered_ids ids) id ≡ contains ids id
unfolding ordered_ids
contains-ordered_ids ids id =
    same (contains (sort_by leb (dedupe ids)) id) (contains (dedupe ids) id)
      (contains-Perm id (sort_by leb (dedupe ids)) (dedupe ids)
        (Perm.symm (sort_by-perm leb (dedupe ids))))
      (contains-Perm id (dedupe ids) (sort_by leb (dedupe ids)) (sort_by-perm leb (dedupe ids)))
    ∙ contains-dedupe ids id
  where
    same : (a b : Bool) → (a ≡ true → b ≡ true) → (b ≡ true → a ≡ true) → a ≡ b
    same true b f g = sym (f refl)
    same false true f g = g refl
    same false false f g = refl

lookup-keep :
    (x id : ℕ) (ranges : List (ℕ × List Range))
    → lookup id (keep (λ (entry : ℕ × List Range). not (entry.0 == x)) ranges)
      ≡ (if x == id then none else lookup id ranges)
lookup-keep x id [] = ground arith
lookup-keep x id ((k, r) ∷ ranges) = ground (arith, lookup-keep x id ranges)

abbrev pub text_entries : List MatchedText → List (ℕ × List Range)
text_entries [] = []
text_entries (t ∷ texts) = (t.id, t.ranges) ∷ text_entries texts

lookup-matched_texts :
    (ids : List ℕ) (ranges : List (ℕ × List Range)) (id : ℕ)
    → lookup id (text_entries (matched_texts ids ranges))
      ≡ (if contains ids id then lookup id ranges else none)
unfolding matched_texts
lookup-matched_texts [] ranges id = refl
lookup-matched_texts (x ∷ ids) ranges id =
    let ranges' = keep (λ (entry : ℕ × List Range). not (entry.0 == x)) ranges in
    let rest =
      lookup-matched_texts ids ranges' id
      ∙ ap (λ o. if contains ids id then o else none) (lookup-keep x id ranges) in
    elim (Option-cases (lookup x ranges)) [
      | inl e ↦ rw e (elim (==-cases x id) [
        | inl (p, q) ↦ rw p (
            rest
            ∙ ap (λ b. if contains ids id then (if b then none else lookup id ranges) else none) p
            ∙ no_ranges (contains ids id)
            ∙ sym (ap (λ k. lookup k ranges) (sym q) ∙ e))
        | inr (p, n) ↦ rw p (rest ∙ not_removed p)
      ])
      | inr (r, e) ↦ rw e (elim (==-cases x id) [
        | inl (p, q) ↦ rw p (sym (ap (λ k. lookup k ranges) (sym q) ∙ e))
        | inr (p, n) ↦ rw p (rest ∙ not_removed p)
      ])
    ]
  where
    no_ranges : (b : Bool) → ◌≡◌ {A = Option (List Range)} (if b then none else none) none
    no_ranges true = refl
    no_ranges false = refl

    not_removed :
        (x == id) ≡ false
        → (if contains ids id then (if x == id then none else lookup id ranges) else none)
          ≡ (if contains ids id then lookup id ranges else none)
    not_removed p =
        ap (λ b. if contains ids id then (if b then none else lookup id ranges) else none) p

-- The response holds the ranges of a text when one of the hits that it keeps names the text, and
-- those that the search found in it; of any other text it holds nothing.
pub lookup-from_hits :
    (query : Text) (hits : List InSessionHit) (ranges : List (ℕ × List Range)) (id : ℕ)
    → lookup id (text_entries (from_hits query hits ranges).texts) ≡ (
        if contains
          (map (λ (hit : InSessionHit). hit.text_id) (from_hits query hits ranges).hits)
          id
        then lookup id ranges
        else none)
unfolding from_hits
lookup-from_hits query hits ranges id =
    lookup-matched_texts
      (ordered_ids (map (λ (hit : InSessionHit). hit.text_id) (take max_in_session_hits hits)))
      ranges id
    ∙ ap (λ b. if b then lookup id ranges else none)
        (contains-ordered_ids
          (map (λ (hit : InSessionHit). hit.text_id) (take max_in_session_hits hits)) id)
