-- ===== src/Search/Pattern/Offsets.antt =====
-- `character_offsets` and `utf16_ranges` of pattern.rs.
use abyss_backend.Common.{
  ℕ, zero, suc, ◌+◌, ◌-◌, ◌≤◌, min, List, [], ◌∷◌, map, ◌≡◌, refl, ap, ◌∙◌, arith, take, drop,
  length, lt→ltb, le→ltb,
}
use abyss_backend.Search.Text.{Text, size, len_utf16}
use abyss_backend.Search.Pattern.{
  Range, Walk, advance, walk_offsets, character_offsets, as_pairs, endpoints, utf16_ranges,
}

-- Positions in an order that does not decrease, none before `from`.
abbrev pub Rising : ℕ → List ℕ → Type 0
Rising from [] = Unit {0}
Rising from (p ∷ ps) = (from ≤ p) × Rising p ps

walk-eq :
    (characters : Text) (p q m n : ℕ)
    → p ≡ q
    → m ≡ n
    → ◌≡◌ {A = Walk}
        (record { characters = characters; position = p; offset = m })
        (record { characters = characters; position = q; offset = n })
walk-eq characters p q m n e f = cc (e, f)

module _ (width : ℕ → ℕ) where
  advance_lem :
      (k position offset : ℕ) (text : Text)
      → advance width (position + k) text position offset ≡ record {
        characters = drop k text;
        position = position + min k (length text);
        offset = offset + size width (take k text);
      }
  unfolding advance
  advance_lem zero position offset [] = walk-eq [] _ _ _ _ (omega arith) (omega arith)
  advance_lem (suc k) position offset [] = walk-eq [] _ _ _ _ (omega arith) (omega arith)
  advance_lem zero position offset (c ∷ text) =
      rw (le→ltb position (position + zero) (omega arith))
        (walk-eq (c ∷ text) _ _ _ _ (omega arith) (omega arith))
  advance_lem (suc k) position offset (c ∷ text) =
      rw (lt→ltb position (position + suc k) (omega arith)) (
        ap (λ n. advance width n text (position + 1) (offset + width c)) {x = position + suc k}
          (omega arith)
        ∙ advance_lem k (position + 1) (offset + width c) text
        ∙ walk-eq (drop k text) _ _ _ _ (omega arith) (omega arith))

  size-take_nil : (n : ℕ) → size width (take n []) ≡ 0
  size-take_nil zero = refl
  size-take_nil (suc n) = refl

  size-take :
      (k m : ℕ) (text : Text)
      → k ≤ m
      → size width (take k text) + size width (take (m - min k (length text)) (drop k text))
        ≡ size width (take m text)
  size-take zero m text h = omega (
    arith,
    ap (λ n. size width (take n text)) {x = m - min 0 (length text)} {y = m} (omega arith),
  )
  size-take (suc k) zero text h = absurd (omega arith)
  size-take (suc k) (suc m) [] h = omega (arith, size-take_nil (suc m - min (suc k) 0))
  size-take (suc k) (suc m) (c ∷ text) h = omega (
    arith,
    size-take k m text (omega arith),
    ap (λ n. size width (take n (drop k text))) {x = suc m - min (suc k) (suc (length text))}
        {y = m - min k (length text)} (omega arith),
  )

  map-cong-Rising :
      (f g : ℕ → ℕ) (from : ℕ) (ps : List ℕ)
      → ((p : ℕ) → from ≤ p → f p ≡ g p)
      → Rising from ps
      → map f ps ≡ map g ps
  map-cong-Rising f g from [] h r = refl
  map-cong-Rising f g from (p ∷ ps) h r =
      cc (h p r.0, map-cong-Rising f g p ps (λ q le. h q (omega (arith, r.0))) r.1)

  Rising-weaken : (from from' : ℕ) (ps : List ℕ) → from' ≤ from → Rising from ps → Rising from' ps
  Rising-weaken from from' [] h r = r
  Rising-weaken from from' (p ∷ ps) h r = (omega (arith, r.0), r.1)

  walk_offsets_lem :
      (ps : List ℕ) (position offset : ℕ) (text : Text)
      → Rising position ps
      → walk_offsets width (record { characters = text; position = position; offset = offset }) ps
        ≡ map (λ p. offset + size width (take (p - position) text)) ps
  unfolding walk_offsets
  walk_offsets_lem [] position offset text r = refl
  walk_offsets_lem (p ∷ ps) position offset text r =
      let k : ℕ = p - position in
      let far : ℕ = position + min k (length text) in
      let moved =
        ap (λ n. advance width n text position offset) {x = p} {y = position + k}
          (omega (arith, r.0))
        ∙ advance_lem k position offset text in
      let rest =
        ap (λ (w : Walk). walk_offsets width w ps) moved
        ∙ walk_offsets_lem ps far (offset + size width (take k text)) (drop k text)
            (Rising-weaken p far ps (omega (arith, r.0)) r.1)
        ∙ map-cong-Rising
            (λ q. offset + size width (take k text) + size width (take (q - far) (drop k text)))
            (λ q. offset + size width (take (q - position) text)) p ps
            (λ q le. omega (
              arith,
              size-take k (q - position) text (omega arith),
              ap (λ n. size width (take n (drop k text))) {x = q - far}
                  {y = q - position - min k (length text)} (omega arith),
            ))
            r.1 in
      cc (ap (λ (w : Walk). w.offset) moved, rest)

  pub character_offsets-Rising :
      (text : Text) (ps : List ℕ)
      → Rising 0 ps
      → character_offsets text ps width ≡ map (λ p. size width (take p text)) ps
  unfolding character_offsets
  character_offsets-Rising text ps r =
      walk_offsets_lem ps 0 0 text r
      ∙ map-cong-Rising (λ p. 0 + size width (take (p - 0) text)) (λ p. size width (take p text)) 0
          ps
          (λ p le.
            omega (arith, ap (λ n. size width (take n text)) {x = p - 0} {y = p} (omega arith)))
          r

-- Ranges that are sorted and do not overlap, none before `from`.
abbrev pub Ascending : ℕ → List Range → Type 0
Ascending from [] = Unit {0}
Ascending from ((start, end) ∷ ranges) = (from ≤ start) × (start ≤ end) × Ascending end ranges

pub Ascending-Rising :
    (from : ℕ) (ranges : List Range) → Ascending from ranges → Rising from (endpoints ranges)
Ascending-Rising from [] a = tt
Ascending-Rising from ((start, end) ∷ ranges) a = (a.0, (a.1, Ascending-Rising end ranges a.2))

pub as_pairs-endpoints :
    (f : ℕ → ℕ) (ranges : List Range)
    → as_pairs (map f (endpoints ranges)) ≡ map (λ (r : Range). (f r.0, f r.1)) ranges
as_pairs-endpoints f [] = refl
as_pairs-endpoints f ((start, end) ∷ ranges) = cc (as_pairs-endpoints f ranges)

abbrev units_before : Text → ℕ → ℕ
units_before text p = size len_utf16 (take p text)

-- The ranges in UTF-16 units are, for sorted ranges that do not overlap, the lengths in UTF-16 of
-- what lies before each end of each range.
pub utf16_ranges-Ascending :
    (text : Text) (ranges : List Range)
    → Ascending 0 ranges
    → utf16_ranges text ranges
      ≡ map (λ (r : Range). (units_before text r.0, units_before text r.1)) ranges
unfolding utf16_ranges
utf16_ranges-Ascending text ranges a =
    ap as_pairs
      (character_offsets-Rising len_utf16 text (endpoints ranges) (Ascending-Rising 0 ranges a))
    ∙ as_pairs-endpoints (units_before text) ranges
