-- ===== src/Streams/Segmentation/Invariant.antt =====
-- The invariant of the last loop of `Segmentation::cut` in segmentation.rs.
use abyss_backend.Common.{
  ℕ, suc, ◌<◌, ◌≤◌, Bool, true, false, List, [], ◌∷◌, some, ◌≡◌, sym, ap, ◌∙◌, inl, inr, nat_eq,
  option_eq, pair_eq, Option-cases, arith, length, get_elem?, get_or, first, All, contains,
  map_option, lookup, set, get_or-set_ne,
}
use abyss_backend.Streams.Bases.{Base}
use abyss_backend.Streams.Segmentation.{Key, Segment, group_eq, Cutting, earlier, kind_of}

module _ (bases : List Base) (children : List ℕ) (key : ℕ → Key) (sides : List Bool) where
  -- What holds of a member of segment `s` after `count` exchanges.
  pub record Member (count : ℕ) (segment_of : List ℕ) (s : ℕ) (side : Bool) (home : Key) (i : ℕ)
      : Type 0 where
    pub placed : i < count
    pub located : get_or segment_of i 0 ≡ s
    pub same_key : key i ≡ home
    pub same_side : get_elem? sides i ≡ some side

  -- What holds of segment `s`.
  pub record SegmentInv (count : ℕ) (segment_of : List ℕ) (main_of : List (Key × ℕ)) (s : ℕ)
      (segment : Segment) : Type 0 where
    pub home : Key
    pub head : ℕ
    pub members : All (Member count segment_of s segment.side home) segment.exchanges
    pub begins : first segment.exchanges ≡ some head
    pub head_placed : head < count
    pub rising : All (λ i. head ≤ i) segment.exchanges
    pub group : segment.group ≡ home.1
    pub kind : segment.kind ≡ kind_of bases children head
    pub parent : segment.parent ≡ map_option (λ base. get_or segment_of base 0) (earlier bases head)
    pub main : segment.side ≡ false → lookup home main_of ≡ some s
    pub lone : segment.side ≡ true → segment.exchanges ≡ head ∷ []

  pub record CutInv (count : ℕ) (c : Cutting) : Type 0 where
    pub sized : length c.segment_of ≡ length sides
    pub fits : count ≤ length sides
    pub each :
        (s : ℕ) (segment : Segment)
        → get_elem? c.segments s ≡ some segment
        → SegmentInv count c.segment_of c.main_of s segment
    pub located :
        (i : ℕ)
        → i < count
        → (segment : Segment) × (get_elem? c.segments (get_or c.segment_of i 0) ≡ some segment)
          × (contains segment.exchanges i ≡ true)
    pub mains :
        (home : Key) (s : ℕ)
        → lookup home c.main_of ≡ some s
        → (segment : Segment) × (get_elem? c.segments s ≡ some segment) × (segment.side ≡ false)
    pub injective :
        (home home' : Key) (s : ℕ)
        → lookup home c.main_of ≡ some s
        → lookup home' c.main_of ≡ some s
        → home ≡ home'
    pub ascending :
        (s t f g : ℕ) (a b : Segment)
        → s < t
        → get_elem? c.segments s ≡ some a
        → get_elem? c.segments t ≡ some b
        → first a.exchanges ≡ some f
        → first b.exchanges ≡ some g
        → f < g

  -- A later placement leaves a member alone.
  pub Member-later :
      (count : ℕ) (segment_of : List ℕ) (s t : ℕ) (side : Bool) (home : Key) (i : ℕ)
      → Member count segment_of s side home i
      → Member (suc count) (set segment_of count t) s side home i
  Member-later count segment_of s t side home i m = record {
    placed = omega (arith, m.placed);
    located =
        get_or-set_ne segment_of count i t 0 (λ e. absurd (omega (arith, m.placed, e))) ∙ m.located;
    same_key = m.same_key;
    same_side = m.same_side;
  }

  pub earlier-lt : (i b : ℕ) → earlier bases i ≡ some b → b < i
  unfolding earlier
  earlier-lt i b h = ground arith

  pub parent-later :
      (count t head : ℕ) (segment_of : List ℕ)
      → head ≤ count
      → map_option (λ base. get_or segment_of base 0) (earlier bases head)
        ≡ map_option (λ base. get_or (set segment_of count t) base 0) (earlier bases head)
  parent-later count t head segment_of h = elim (Option-cases (earlier bases head)) [
    | inl e ↦ rw e
    | inr (b, e) ↦
        let lt = earlier-lt head b e in
        rw e (ap some (sym (get_or-set_ne segment_of count b t 0 (λ p. absurd (omega arith)))))
  ]
