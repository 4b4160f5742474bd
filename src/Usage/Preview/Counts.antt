-- ===== src/Usage/Preview/Counts.antt =====
-- What a preview counts as left out (usage/preview.rs).
use abyss_backend.Common.{
  ℕ, zero, suc, ◌+◌, ◌-◌, ◌≤◌, ◌<◌, min, Bool, true, false, not, Option, ◌||◌, List, [], ◌∷◌, none,
  some, ◌≡◌, refl, sym, ◌∙◌, arith, if◌then◌else◌, any, All, length,
}
use abyss_backend.Usage.Preview.{
  Run, span, last, Range, Window, Entry, usize_bound, run_ranges, ranges, ranges_of, range_contains,
  is_shown, total_length, preview,
}
use abyss_backend.Usage.Preview.Merging.{AreSeparated, asks_for, run_ranges-shown}

-- How many of the first `n` indices have a property.
abbrev pub count_below : ℕ → (ℕ → Bool) → ℕ
count_below zero p = 0
count_below (suc n) p = (if p n then 1 else 0) + count_below n p

count-range :
    (n start end : ℕ)
    → start ≤ end
    → count_below n (λ i. range_contains i (start, end)) + min n start ≡ min n end
count-range zero start end h = omega arith
count-range (suc n) start end h = ground (arith, count-range n start end h)

count-apart :
    (n : ℕ) (p q : ℕ → Bool)
    → ((i : ℕ) → p i ≡ true → q i ≡ false)
    → count_below n (λ i. p i || q i) ≡ count_below n p + count_below n q
count-apart zero p q h = omega arith
count-apart (suc n) p q h = ground (arith, count-apart n p q h, h n)

count-none : (n : ℕ) → count_below n (λ i. false) ≡ 0
count-none zero = refl
count-none (suc n) = omega (arith, count-none n)

-- Behind a range that ends before the others start, the others show nothing of it.
shown_apart :
    (r : Range) (rs : List Range) (i : ℕ)
    → All (λ q. r.1 < q.0) rs
    → range_contains i r ≡ true
    → is_shown rs i ≡ false
shown_apart r [] i h k = refl
shown_apart r (q ∷ rs) i h k = ground (arith, h.0, shown_apart r rs i h.1 k)

-- The lengths of separated ranges add up to the number of indices that they show.
total_length-count :
    (n : ℕ) (rs : List Range)
    → AreSeparated rs
    → All (λ r. r.1 ≤ n) rs
    → total_length rs ≡ count_below n (is_shown rs)
unfolding total_length
total_length-count n [] s b = sym (count-none n)
total_length-count n (r ∷ rs) s b = omega (
  arith,
  count-apart n (λ i. range_contains i r) (is_shown rs) (λ i k. shown_apart r rs i s.1 k),
  count-range n r.0 r.1 (omega (arith, s.0)),
  total_length-count n rs s.2 b.1,
  s.0,
  b.0,
)

count-complement : (n : ℕ) (p : ℕ → Bool) → count_below n p + count_below n (λ i. not (p i)) ≡ n
count-complement zero p = omega arith
count-complement (suc n) p = ground (arith, count-complement n p)

-- Ranges that show only indices below `n` end there.
ends_below :
    (n : ℕ) (rs : List Range)
    → AreSeparated rs
    → ((i : ℕ) → is_shown rs i ≡ true → i < n)
    → All (λ r. r.1 ≤ n) rs
ends_below n [] s f = tt
ends_below n (r ∷ rs) s f = (
  omega (arith, f (r.1 - 1) (ground (arith, s.0)), s.0),
  ends_below n rs s.2 (λ i h. f i (ground (arith, h))),
)

asked_below : (total i : ℕ) (runs : List Run) → any (asks_for total i) runs ≡ true → i < total
asked_below total i [] h = cc
asked_below total i (span from to ∷ runs) h = ground (arith, asked_below total i runs)
asked_below total i (last count ∷ runs) h = ground (arith, asked_below total i runs)

ranges-count :
    (total : ℕ) (runs : Option (List Run))
    → total < usize_bound
    → total_length (ranges_of runs total) ≡ count_below total (is_shown (ranges_of runs total))
unfolding ranges_of
ranges-count total none h =
    unfold total_length in
    omega (
      arith,
      count-range total 0 total (omega arith),
      count-apart total (λ i. range_contains i (0, total)) (λ i. false) (λ i e. refl),
      count-none total,
    )
ranges-count total (some runs) h =
    let (apart, shows) = run_ranges-shown total runs h in
    total_length-count total (run_ranges total runs) apart (
      ends_below total (run_ranges total runs) apart
        (λ i e. asked_below total i runs (sym (shows i) ∙ e)))

-- A preview counts as left out as many entries as no range of its window shows, and these and the
-- entries of its chunks are all entries.
pub preview-omitted :
    (entries : List Entry) (window : Window)
    → length entries < usize_bound
    → ((preview entries window).omitted_entries
        ≡ count_below (length entries) (λ i. not (is_shown (ranges window (length entries)) i)))
      × ((preview entries window).omitted_entries + total_length (ranges window (length entries))
          ≡ length entries)
unfolding preview ranges
preview-omitted entries window h =
    let total = length entries in
    let shown = ranges_of window.runs total in
    (
      omega (arith, ranges-count total window.runs h, count-complement total (is_shown shown)),
      omega (arith, ranges-count total window.runs h, count-complement total (is_shown shown)),
    )
