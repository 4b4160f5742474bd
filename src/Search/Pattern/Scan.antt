-- ===== src/Search/Pattern/Scan.antt =====
-- The scan of `match_indices` in pattern.rs, counted in characters.
use mathlib.Core.List.{append_assoc}
use abyss_backend.Common.{
  ℕ, zero, suc, ◌+◌, ◌-◌, ◌≤◌, ◌<◌, true, List, [], ◌∷◌, ◌++◌, map, some, ◌≡◌, refl, sym, ap, subst,
  ◌∙◌, inl, inr, ◌==◌, nat_eq, arith, if◌then◌else◌, length, length-append, drop, All, Bool-cases,
  map_or, ==→eq, ==→ne, ==_refl, ltb, ltb→lt, ltb→le, pair_eq, drop-append, and-eq-true, contains,
  not,
}
use abyss_backend.Search.Text.{Text, len_utf8, size, starts_with, holds, get_bytes}
use abyss_backend.Search.Text.Characters.{size-append}
use abyss_backend.Search.Text.Slices.{get_bytes-append}
use abyss_backend.Search.Pattern.{Range, match_indices, scan_starts}
use abyss_backend.Search.Pattern.Offsets.{Ascending}

-- The scan of `match_indices` in characters.
abbrev pub found_at : Text → ℕ → ℕ → Text → List ℕ
found_at pattern skip at [] = []
found_at pattern (suc skip) at (c ∷ text) = found_at pattern skip (at + 1) text
found_at pattern zero at (c ∷ text) =
    let inside = found_at pattern (length pattern - 1) (at + 1) text in
    let beyond = found_at pattern zero (at + 1) text in
    if starts_with pattern (c ∷ text) then at ∷ inside else beyond

abbrev pub span : ℕ → ℕ → Range
span n at = (at, at + n)

module _ (pattern : Text) (n : ℕ) (folded : Text) where
  -- The characters between the last match and the next one.
  counted_bytes :
      (counted mid text : Text) (bytes : ℕ)
      → folded ≡ counted ++ (mid ++ text)
      → bytes ≡ size len_utf8 counted + size len_utf8 mid
      → get_bytes folded (size len_utf8 counted) bytes ≡ some mid
  counted_bytes counted mid text bytes e b = rw (e, b) (get_bytes-append counted mid text)

  -- The bytes scanned since the last match are counted in characters.
  pub scan_starts-found_at :
      (skip : ℕ) (text counted mid : Text) (bytes chars : ℕ)
      → folded ≡ counted ++ (mid ++ text)
      → bytes ≡ size len_utf8 counted + size len_utf8 mid
      → chars ≡ length counted + length mid
      → scan_starts folded n
          (match_indices pattern skip bytes text)
          (size len_utf8 counted)
          (length counted)
        ≡ map (span n) (found_at pattern skip chars text)
  unfolding scan_starts match_indices
  scan_starts-found_at skip [] counted mid bytes chars e b l = refl
  scan_starts-found_at (suc skip) (c ∷ text) counted mid bytes chars e b l =
      scan_starts-found_at skip text counted (mid ++ c ∷ []) (bytes + len_utf8 c) (chars + 1)
        (e ∙ ap (λ t. counted ++ t) (sym (append_assoc mid (c ∷ []) text)))
        (omega (arith, b, size-append len_utf8 mid (c ∷ [])))
        (omega (arith, l, length-append mid (c ∷ [])))
  scan_starts-found_at zero (c ∷ text) counted mid bytes chars e b l =
      elim (Bool-cases (starts_with pattern (c ∷ text))) [
        | inr q ↦ rw (q) (
            scan_starts-found_at zero text counted (mid ++ c ∷ []) (bytes + len_utf8 c) (chars + 1)
              (e ∙ ap (λ t. counted ++ t) (sym (append_assoc mid (c ∷ []) text)))
              (omega (arith, b, size-append len_utf8 mid (c ∷ [])))
              (omega (arith, l, length-append mid (c ∷ []))))
        | inl p ↦
            let slice = counted_bytes counted mid (c ∷ text) bytes e b in
            let here : length counted
                  + map_or 0 length (get_bytes folded (size len_utf8 counted) bytes)
                ≡ chars =
              omega (arith, l, ap (map_or 0 length) slice) in
            let sizes : bytes ≡ size len_utf8 (counted ++ mid) =
              omega (arith, b, size-append len_utf8 counted mid) in
            let lengths : chars ≡ length (counted ++ mid) =
              omega (arith, l, length-append counted mid) in
            let rest =
              scan_starts-found_at (length pattern - 1) text (counted ++ mid) (c ∷ [])
                (bytes + len_utf8 c) (chars + 1) (e ∙ sym (append_assoc counted mid (c ∷ text)))
                (omega (arith, sizes)) (omega (arith, lengths)) in
            rw (p, here) (cc (rest, sizes, lengths))
      ]

-- The pattern stands at the position of the text.
abbrev pub StandsAt : Text → Text → ℕ → Type 0
StandsAt pattern text p = starts_with pattern (drop p text) ≡ true

drop_here :
    (whole done text : Text) (at : ℕ)
    → whole ≡ done ++ text
    → at ≡ length done
    → drop at whole ≡ text
drop_here whole done text at e l = rw (e, l) (drop-append done text)

pub starts_with-le :
    (pattern text : Text) → starts_with pattern text ≡ true → length pattern ≤ length text
starts_with-le [] text h = omega arith
starts_with-le (p ∷ pattern) [] h = absurd (cc)
starts_with-le (p ∷ pattern) (c ∷ text) h =
    omega (arith, starts_with-le pattern text (and-eq-true (p == c) (starts_with pattern text) h).1)

length-drop : (n : ℕ) (xs : Text) → length (drop n xs) ≡ length xs - n
length-drop zero xs = omega arith
length-drop (suc n) [] = omega arith
length-drop (suc n) (x ∷ xs) = omega (arith, length-drop n xs)

-- Some range holds the position.
abbrev pub Covers : List Range → ℕ → Type 0
Covers ranges p = (r : Range) × (contains ranges r ≡ true) × (r.0 ≤ p) × (p < r.1)

Covers-cons : (r : Range) (ranges : List Range) (p : ℕ) → Covers ranges p → Covers (r ∷ ranges) p
Covers-cons r ranges p (s, m, low, high) = (s, ground (arith, m), low, high)

Ascending-weaken :
    (from from' : ℕ) (ranges : List Range)
    → from' ≤ from
    → Ascending from ranges
    → Ascending from' ranges
Ascending-weaken from from' [] h a = tt
Ascending-weaken from from' ((start, end) ∷ ranges) h a = (omega (arith, a.0), a.1, a.2)

module _ (pattern whole : Text) (nonempty : 1 ≤ length pattern) where
  one_more : (done text : Text) (c at : ℕ) → at ≡ length done → at + 1 ≡ length (done ++ c ∷ [])
  one_more done text c at l = omega (arith, l, length-append done (c ∷ []))

  shift : (done text : Text) (c : ℕ) → whole ≡ done ++ c ∷ text → whole ≡ (done ++ c ∷ []) ++ text
  shift done text c e = e ∙ sym (append_assoc done (c ∷ []) text)

  pub found_at-StandsAt :
      (skip : ℕ) (done text : Text) (at : ℕ)
      → whole ≡ done ++ text
      → at ≡ length done
      → All (StandsAt pattern whole) (found_at pattern skip at text)
  found_at-StandsAt skip done [] at e l = tt
  found_at-StandsAt (suc skip) done (c ∷ text) at e l =
      found_at-StandsAt skip (done ++ c ∷ []) text (at + 1) (shift done text c e)
        (one_more done text c at l)
  found_at-StandsAt zero done (c ∷ text) at e l =
      let next = λ (skip : ℕ).
        found_at-StandsAt skip (done ++ c ∷ []) text (at + 1) (shift done text c e)
          (one_more done text c at l) in
      elim (Bool-cases (starts_with pattern (c ∷ text))) [
        | inl p ↦ rw p (
          ap (starts_with pattern) (drop_here whole done (c ∷ text) at e l) ∙ p,
          next (length pattern - 1),
        )
        | inr q ↦ rw q (next zero)
      ]

  pub found_at-Ascending :
      (skip : ℕ) (text : Text) (at : ℕ)
      → Ascending (at + skip) (map (span (length pattern)) (found_at pattern skip at text))
  found_at-Ascending skip [] at = tt
  found_at-Ascending (suc skip) (c ∷ text) at =
      subst (λ n. Ascending n (map (span (length pattern)) (found_at pattern skip (at + 1) text)))
        {x = at + 1 + skip} (omega arith) (found_at-Ascending skip text (at + 1))
  found_at-Ascending zero (c ∷ text) at = elim (Bool-cases (starts_with pattern (c ∷ text))) [
    | inl p ↦ rw p (
      omega arith,
      omega arith,
      subst
          (λ n.
            Ascending n
              (map (span (length pattern)) (found_at pattern (length pattern - 1) (at + 1) text)))
          {x = at + 1 + (length pattern - 1)} (omega (arith, nonempty))
          (found_at-Ascending (length pattern - 1) text (at + 1)),
    )
    | inr q ↦ rw q (
        Ascending-weaken (at + 1 + 0) (at + 0) _ (omega arith)
          (found_at-Ascending zero text (at + 1)))
  ]

  pub found_at-Covers :
      (skip : ℕ) (done text : Text) (at p : ℕ)
      → whole ≡ done ++ text
      → at ≡ length done
      → at + skip ≤ p
      → StandsAt pattern whole p
      → Covers (map (span (length pattern)) (found_at pattern skip at text)) p
  found_at-Covers skip done [] at p e l h stands = absurd (
      omega (
        arith,
        nonempty,
        h,
        l,
        starts_with-le pattern (drop p whole) stands,
        length-drop p whole,
        ap length e,
        length-append done [],
      ))
  found_at-Covers (suc skip) done (c ∷ text) at p e l h stands =
      found_at-Covers skip (done ++ c ∷ []) text (at + 1) p (shift done text c e)
        (one_more done text c at l) (omega (arith, h)) stands
  found_at-Covers zero done (c ∷ text) at p e l h stands =
      let next = λ (skip : ℕ) (low : at + 1 + skip ≤ p).
        found_at-Covers skip (done ++ c ∷ []) text (at + 1) p (shift done text c e)
          (one_more done text c at l) low stands in
      elim (Bool-cases (starts_with pattern (c ∷ text))) [
        | inl m ↦ elim (Bool-cases (ltb p (at + length pattern))) [
          | inl near ↦ rw m (
            span (length pattern) at,
            ground (arith, ==_refl (span (length pattern) at)),
            omega (arith, h),
            ltb→lt p (at + length pattern) near,
          )
          | inr far ↦ rw m (
              Covers-cons (span (length pattern) at) _ p (
                next (length pattern - 1)
                  (omega (arith, nonempty, ltb→le p (at + length pattern) far))))
        ]
        | inr q ↦ elim (Bool-cases (at == p)) [
          | inl here ↦ absurd (
              cc (
                q,
                stands,
                ==→eq at p here,
                ap (starts_with pattern) (drop_here whole done (c ∷ text) at e l),
              ))
          | inr later ↦ rw q (next zero (omega (arith, h, ==→ne at p later)))
        ]
      ]

pub holds-found_at :
    (pattern text : Text) (at : ℕ)
    → 1 ≤ length pattern
    → holds pattern text ≡ not (length (found_at pattern zero at text) == 0)
holds-found_at [] text at h = absurd (omega (arith, h))
holds-found_at (p ∷ pattern) [] at h = refl
holds-found_at (p ∷ pattern) (c ∷ text) at h =
    elim (Bool-cases (starts_with (p ∷ pattern) (c ∷ text))) [
      | inl m ↦ rw m (ground arith)
      | inr q ↦ rw q (holds-found_at (p ∷ pattern) text (at + 1) h)
    ]
