-- ===== src/Search/Ranking/Fragments.antt =====
-- `EventHits::fragment_texts` of ranking.rs against the list of all the texts.
use mathlib.Core.List.{append_assoc, append-nil}
use abyss_backend.Common.{
  ℕ, zero, suc, ◌≤◌, List, [], ◌∷◌, ◌++◌, map, ◌≡◌, refl, sym, ap, ◌∙◌, inl, inr, nat_eq, ==-cases,
  Bool-cases, arith, if◌then◌else◌, length, length-append, take, contains, sort_by,
}
use abyss_backend.Search.Ranking.{
  PieceHit, EventHits, hit_le, fragments_per_match, collect_texts, fragment_texts,
}

-- The texts that are not in `seen`, each where it stands first.
abbrev pub fresh : List ℕ → List ℕ → List ℕ
fresh seen [] = []
fresh seen (id ∷ ids) =
    let old = fresh seen ids in
    let new = fresh (seen ++ id ∷ []) ids in if contains seen id then old else id ∷ new

abbrev pub text_ids : List PieceHit → List ℕ
text_ids = map (λ (hit : PieceHit). hit.text_id)

take_all : (n : ℕ) (xs : List ℕ) → length xs ≤ n → take n xs ≡ xs
take_all zero [] h = refl
take_all (suc n) [] h = refl
take_all zero (x ∷ xs) h = absurd (omega (arith, h))
take_all (suc n) (x ∷ xs) h = ap (λ t. x ∷ t) (take_all n xs (omega (arith, h)))

take_full : (n : ℕ) (xs ys : List ℕ) → length xs ≡ n → take n (xs ++ ys) ≡ xs
take_full zero [] ys h = refl
take_full (suc n) [] ys h = absurd (omega (arith, h))
take_full zero (x ∷ xs) ys h = absurd (omega (arith, h))
take_full (suc n) (x ∷ xs) ys h = ap (λ t. x ∷ t) (take_full n xs ys (omega (arith, h)))

collect_texts-fresh :
    (hits : List PieceHit) (texts : List ℕ)
    → length texts ≤ fragments_per_match
    → collect_texts hits texts ≡ take fragments_per_match (texts ++ fresh texts (text_ids hits))
unfolding collect_texts
collect_texts-fresh [] texts h =
    sym (ap (take fragments_per_match) (append-nil texts) ∙ take_all fragments_per_match texts h)
collect_texts-fresh (hit ∷ hits) texts h = elim (==-cases (length texts) fragments_per_match) [
  | inl (p, full) ↦ rw p (sym (take_full fragments_per_match texts _ full))
  | inr (p, room) ↦ rw p (elim (Bool-cases (contains texts hit.text_id)) [
    | inl old ↦ rw old (collect_texts-fresh hits texts h)
    | inr new ↦ rw new (
        collect_texts-fresh hits (texts ++ hit.text_id ∷ [])
          (omega (arith, h, room, length-append texts (hit.text_id ∷ [])))
        ∙ ap (take fragments_per_match) (
            append_assoc texts (hit.text_id ∷ [])
              (fresh (texts ++ hit.text_id ∷ []) (text_ids hits))))
  ])
]

-- The loop with its early exit gives the first two of all the texts of the hits, new hits first,
-- each text once and where it stands first.
pub fragment_texts-fresh :
    (event : EventHits)
    → fragment_texts event
      ≡ take fragments_per_match (fresh [] (text_ids (sort_by hit_le event.hits)))
unfolding fragment_texts
fragment_texts-fresh event = collect_texts-fresh (sort_by hit_le event.hits) [] (omega arith)
