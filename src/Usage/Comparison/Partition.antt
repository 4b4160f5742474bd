-- ===== src/Usage/Comparison/Partition.antt =====
-- The buckets of an accepted comparison (usage/comparison.rs).
use mathlib.Core.Option.{some-injective}
use abyss_backend.Common.{
  ℕ, ◌+◌, ◌≤◌, ◌<◌, Bool, false, not, ◌&&◌, List, [], ◌∷◌, Option, none, some, ◌≡◌, refl, sym, ap,
  ◌∙◌, arith, ltb, leb, ◌==◌, nat_eq, if◌then◌else◌, or-eq-false, ltb→le, any, first, last, ok,
}
use abyss_backend.Errors.Checks.{reject_if-ok}
use abyss_backend.Usage.Comparison.{
  ComparisonBucket, ComparisonQuery, any_gap, check_buckets, check_ends, validate, longest_range,
}

abbrev pub bucket_contains : ℕ → ComparisonBucket → Bool
bucket_contains time bucket = leb bucket.start time && ltb time bucket.end

-- How many buckets hold an instant.
abbrev pub holding : ℕ → List ComparisonBucket → ℕ
holding time [] = 0
holding time (bucket ∷ buckets) =
    (if bucket_contains time bucket then 1 else 0) + holding time buckets

-- The end of the last bucket of `bucket ∷ buckets`.
abbrev pub final_end : ComparisonBucket → List ComparisonBucket → ℕ
final_end bucket [] = bucket.end
final_end bucket (next ∷ buckets) = final_end next buckets

last-final_end :
    (bucket b : ComparisonBucket) (buckets : List ComparisonBucket)
    → last (bucket ∷ buckets) ≡ some b
    → final_end bucket buckets ≡ b.end
last-final_end bucket b [] h = ap end_of (some-injective _ _ h)
  where
    end_of : ComparisonBucket → ℕ
    end_of c = c.end
last-final_end bucket b (next ∷ buckets) h = last-final_end next b buckets h

start-lt-final_end :
    (bucket : ComparisonBucket) (buckets : List ComparisonBucket)
    → any (λ b. leb b.end b.start) (bucket ∷ buckets) ≡ false
    → any_gap (bucket ∷ buckets) ≡ false
    → bucket.start < final_end bucket buckets
unfolding any_gap
start-lt-final_end bucket [] n g = ground arith
start-lt-final_end bucket (next ∷ buckets) n g = ground (arith, start-lt-final_end next buckets)

holding-one :
    (time : ℕ) (bucket : ComparisonBucket) (buckets : List ComparisonBucket)
    → any (λ b. leb b.end b.start) (bucket ∷ buckets) ≡ false
    → any_gap (bucket ∷ buckets) ≡ false
    → holding time (bucket ∷ buckets)
      ≡ (if leb bucket.start time && ltb time (final_end bucket buckets) then 1 else 0)
unfolding any_gap
holding-one time bucket [] n g = ground arith
holding-one time bucket (next ∷ buckets) n g =
    let full =
      or-eq-false (leb bucket.end bucket.start)
        (any (λ (b : ComparisonBucket). leb b.end b.start) (next ∷ buckets)) n in
    let gapless = or-eq-false (not (bucket.end == next.start)) (any_gap (next ∷ buckets)) g in
    ground (
      arith,
      holding-one time next buckets full.1 gapless.1,
      start-lt-final_end next buckets full.1 gapless.1,
    )

module _ (query : ComparisonQuery) (bucket : ComparisonBucket) (buckets : List ComparisonBucket)
    (same : query.buckets ≡ bucket ∷ buckets) (final : ComparisonBucket)
    (accepted : check_buckets query bucket final ≡ ok tt) where
  checked :
      (ltb (bucket.start + longest_range) final.end ≡ false)
      × (any (λ (b : ComparisonBucket). leb b.end b.start) query.buckets ≡ false)
      × (any_gap query.buckets ≡ false)
  unfolding check_buckets
  checked =
      let (bounded, more) = reject_if-ok _ _ _ accepted in
      let (ordered, _) = reject_if-ok _ _ _ more in
      ((or-eq-false _ _ bounded).1, (or-eq-false _ _ ordered).0, (or-eq-false _ _ ordered).1)

ends_of :
    (query : ComparisonQuery) (one final : Option ComparisonBucket)
    → check_ends query one final ≡ ok tt
    → (bucket : ComparisonBucket) × (b : ComparisonBucket) × (one ≡ some bucket)
      × (final ≡ some b)
      × (check_buckets query bucket b ≡ ok tt)
unfolding check_ends
ends_of query (some bucket) (some b) h = (bucket, b, refl, refl, h)
ends_of query (some bucket) none h = absurd (cc)
ends_of query none final h = absurd (cc)

first_bucket :
    (buckets : List ComparisonBucket) {bucket : ComparisonBucket}
    → first buckets ≡ some bucket
    → (rest : List ComparisonBucket) × (buckets ≡ bucket ∷ rest)
first_bucket [] h = absurd (cc)
first_bucket (b ∷ buckets) h = (buckets, ap (λ c. c ∷ buckets) (some-injective _ _ h))

-- The buckets of an accepted query divide the time from the start of the first to the end of the
-- last, which is at most 367 days: every instant in between lies in exactly one bucket, and no other
-- instant lies in any.
pub validate-Partition :
    (query : ComparisonQuery)
    → validate query ≡ ok tt
    → (start : ℕ) × (end : ℕ) × (start < end)
      × (end ≤ start + longest_range)
      × ((time : ℕ)
          → holding time query.buckets ≡ (if leb start time && ltb time end then 1 else 0))
unfolding validate
validate-Partition query h =
    let (bucket, b, e, f, accepted) = ends_of query (first query.buckets) (last query.buckets) h in
    let (rest, same) = first_bucket query.buckets e in
    let (short, full, gapless) = checked query bucket rest same b accepted in
    let end_is : final_end bucket rest ≡ b.end =
      last-final_end bucket b rest (ap last (sym same) ∙ f) in
    let full' = ap (any (λ (c : ComparisonBucket). leb c.end c.start)) (sym same) ∙ full in
    let gapless' = ap any_gap (sym same) ∙ gapless in
    (
      bucket.start,
      final_end bucket rest,
      start-lt-final_end bucket rest full' gapless',
      omega (arith, ltb→le _ _ short, end_is),
      (λ time. ap (holding time) same ∙ holding-one time bucket rest full' gapless'),
    )
