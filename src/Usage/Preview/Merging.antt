-- ===== src/Usage/Preview/Merging.antt =====
-- The ranges of a window (usage/preview.rs).
use abyss_backend.Common.{
  ℕ, ◌-◌, ◌≤◌, ◌<◌, max, Bool, true, false, ◌&&◌, ◌||◌, List, [], ◌∷◌, map, ◌≡◌, refl, ap, ◌∙◌, inl,
  inr, arith, ltb, leb, ltb→lt, leb→le, leb→lt, Bool-cases, any, keep, All, All-map, All-sort,
  sort_by, insert_by, Sorted, sort_by-Sorted,
}
use abyss_backend.Usage.Preview.{
  Run, span, last, Range, usize_bound, run_range, by_start, is_nonempty, merge_from, merge,
  run_ranges, range_contains, is_shown,
}

-- Whether a run asks for an index.
abbrev pub asks_for : ℕ → ℕ → Run → Bool
asks_for total index (span from to) = leb from index && leb index to && ltb index total
asks_for total index (last count) = leb (total - count) index && ltb index total

run_range-asks_for :
    (total index : ℕ) (run : Run)
    → total < usize_bound
    → range_contains index (run_range total run) ≡ asks_for total index run
unfolding run_range
run_range-asks_for total index (span from to) h = ground arith
run_range-asks_for total index (last count) h = refl

-- Sorting and dropping the empty ranges changes nothing of what is shown.
is_shown-keep :
    (index : ℕ) (rs : List Range) → is_shown (keep is_nonempty rs) index ≡ is_shown rs index
is_shown-keep index [] = refl
is_shown-keep index (r ∷ rs) = ground (arith, is_shown-keep index rs)

is_shown-insert :
    (index : ℕ) (r : Range) (rs : List Range)
    → is_shown (insert_by by_start r rs) index ≡ (range_contains index r || is_shown rs index)
is_shown-insert index r [] = refl
is_shown-insert index r (s ∷ rs) = ground (arith, is_shown-insert index r rs)

is_shown-sort :
    (index : ℕ) (rs : List Range) → is_shown (sort_by by_start rs) index ≡ is_shown rs index
is_shown-sort index [] = refl
is_shown-sort index (r ∷ rs) =
    is_shown-insert index r (sort_by by_start rs)
    ∙ ap (λ b. range_contains index r || b) (is_shown-sort index rs)

is_shown-map :
    (total index : ℕ) (runs : List Run)
    → total < usize_bound
    → is_shown (map (run_range total) runs) index ≡ any (asks_for total index) runs
is_shown-map total index [] h = refl
is_shown-map total index (run ∷ runs) h =
    ap (λ b. b || is_shown (map (run_range total) runs) index)
      (run_range-asks_for total index run h)
    ∙ ap (λ b. asks_for total index run || b) (is_shown-map total index runs h)

-- Every range starts at `start` or later, and is not empty.
abbrev AreFrom : ℕ → List Range → Type 0
AreFrom start rs = All (λ r. start ≤ r.0) rs

Sorted→AreFrom : (r : Range) (rs : List Range) → Sorted by_start (r ∷ rs) → AreFrom r.0 rs
Sorted→AreFrom r rs s =
    All-map (λ q. by_start r q ≡ true) (λ q. r.0 ≤ q.0) rs (λ q. leb→le r.0 q.0) s.0

joined_range :
    (index start end from to : ℕ)
    → start ≤ from
    → from ≤ end
    → range_contains index (start, max end to)
      ≡ (range_contains index (start, end) || range_contains index (from, to))
joined_range index start end from to h k = ground arith

or_regroup : (a b c d : Bool) → a ≡ (b || c) → (a || d) ≡ (b || (c || d))
or_regroup a b c d h = ground arith

is_shown-merge_from :
    (index start end : ℕ) (rs : List Range)
    → start ≤ end
    → AreFrom start rs
    → Sorted by_start rs
    → All (λ r. r.0 < r.1) rs
    → is_shown (merge_from start end rs) index
      ≡ (range_contains index (start, end) || is_shown rs index)
unfolding merge_from
is_shown-merge_from index start end [] h f s n = refl
is_shown-merge_from index start end ((from, to) ∷ rs) h f s n = elim (Bool-cases (leb from end)) [
  | inl e ↦ rw e (
      is_shown-merge_from index start (max end to) rs (omega arith) f.1 s.1 n.1
      ∙ or_regroup _ _ _ _ (joined_range index start end from to f.0 (leb→le from end e)))
  | inr e ↦ rw e (
      ap (λ b. range_contains index (start, end) || b)
        (is_shown-merge_from index from to rs (omega (arith, n.0)) (Sorted→AreFrom (from, to) rs s)
          s.1 n.1))
]

-- The ranges are not empty, and each ends before the next starts.
abbrev pub AreSeparated : List Range → Type 0
AreSeparated [] = Unit
AreSeparated (r ∷ rs) = (r.0 < r.1) × All (λ q. r.1 < q.0) rs × AreSeparated rs

merge_from-AreSeparated :
    (start end : ℕ) (rs : List Range)
    → start < end
    → AreFrom start rs
    → Sorted by_start rs
    → All (λ r. r.0 < r.1) rs
    → AreSeparated (merge_from start end rs) × AreFrom start (merge_from start end rs)
unfolding merge_from
merge_from-AreSeparated start end [] h f s n = ((h, tt, tt), (omega arith, tt))
merge_from-AreSeparated start end ((from, to) ∷ rs) h f s n = elim (Bool-cases (leb from end)) [
  | inl e ↦ rw e (merge_from-AreSeparated start (max end to) rs (omega arith) f.1 s.1 n.1)
  | inr e ↦
      let (apart, later) =
        merge_from-AreSeparated from to rs n.0 (Sorted→AreFrom (from, to) rs s) s.1 n.1 in
      let gap : end < from = leb→lt from end e in
      let rest = merge_from from to rs in
      rw e (
        (h, All-map (λ q. from ≤ q.0) (λ q. end < q.0) rest (λ q k. omega arith) later, apart),
        (omega arith, All-map (λ q. from ≤ q.0) (λ q. start ≤ q.0) rest (λ q k. omega arith) later),
      )
]

keep-nonempty : (rs : List Range) → All (λ r. r.0 < r.1) (keep is_nonempty rs)
keep-nonempty [] = tt
keep-nonempty (r ∷ rs) = elim (Bool-cases (is_nonempty r)) [
  | inl e ↦ rw e (ltb→lt r.0 r.1 e, keep-nonempty rs)
  | inr e ↦ rw e (keep-nonempty rs)
]

by_start_total : (a b : Range) → by_start a b ≡ false → by_start b a ≡ true
by_start_total a b h = ground arith

by_start_trans : (a b c : Range) → by_start a b ≡ true → by_start b c ≡ true → by_start a c ≡ true
by_start_trans a b c h k = ground arith

-- What `merge` makes of sorted ranges.
merge_lem :
    (rs : List Range)
    → Sorted by_start rs
    → All (λ r. r.0 < r.1) rs
    → AreSeparated (merge rs) × ((index : ℕ) → is_shown (merge rs) index ≡ is_shown rs index)
unfolding merge
merge_lem [] s n = (tt, (λ index. refl))
merge_lem ((start, end) ∷ rs) s n = (
  (merge_from-AreSeparated start end rs n.0 (Sorted→AreFrom (start, end) rs s) s.1 n.1).0,
  (λ index.
      is_shown-merge_from index start end rs (omega (arith, n.0)) (Sorted→AreFrom (start, end) rs s)
        s.1 n.1),
)

-- The ranges of the runs that a query names are in order, not empty and apart from one another,
-- and show an index exactly if it is one of the entries and some run asks for it.
pub run_ranges-shown :
    (total : ℕ) (runs : List Run)
    → total < usize_bound
    → AreSeparated (run_ranges total runs)
      × ((index : ℕ) → is_shown (run_ranges total runs) index ≡ any (asks_for total index) runs)
unfolding run_ranges
run_ranges-shown total runs h =
    let nonempty = keep is_nonempty (map (run_range total) runs) in
    let (apart, shows) =
      merge_lem (sort_by by_start nonempty)
        (sort_by-Sorted by_start by_start_total by_start_trans nonempty)
        (All-sort (λ r. r.0 < r.1) by_start nonempty
          (keep-nonempty (map (run_range total) runs))) in
    (
      apart,
      (λ index.
          shows index
          ∙ is_shown-sort index nonempty
          ∙ is_shown-keep index (map (run_range total) runs)
          ∙ is_shown-map total index runs h),
    )
