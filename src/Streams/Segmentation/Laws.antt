-- ===== src/Streams/Segmentation/Laws.antt =====
-- What `Segmentation::cut` of segmentation.rs promises of the segments of a session.
use abyss_backend.Common.{
  ℕ, ◌<◌, Bool, true, false, List, [], ◌∷◌, none, some, ◌≡◌, sym, ap, ◌∙◌, ◌⊎◌, inl, inr, nat_eq,
  option_eq, pair_eq, arith, length, length-map, length-range, get_elem?, get_or, first, range,
  contains, All, All-contains, All-of_contains, to_list, Bool-cases, map_option, Option-cases,
  lookup, ==_refl, ◌≤◌,
}
use mathlib.Core.Option.{some-injective}
use abyss_backend.Streams.Exchanges.{Exchange}
use abyss_backend.Streams.Bases.{Base}
use abyss_backend.Streams.Turns.{Turns}
use abyss_backend.Streams.Segmentation.{
  Key, Segment, Segmentation, group_eq, earlier, fanout_of, sides_of, key_of, side_flags, cut,
  cut_all,
}
use abyss_backend.Streams.Segmentation.Invariant.{Member, SegmentInv, CutInv, earlier-lt}
use abyss_backend.Streams.Segmentation.Partition.{cut_all-CutInv}

le-or-lt : (a b : ℕ) → ((a ≡ b) ⊎ (a < b)) ⊎ (b < a)
le-or-lt a b = ground arith

first-contains : (xs : List ℕ) (i : ℕ) → first xs ≡ some i → contains xs i ≡ true
first-contains [] i h = cc
first-contains (x ∷ xs) i h = rw (some-injective x i h) (rw (==_refl i))

module _ (exchanges : List Exchange) (bases : List Base) (turns : Turns) where
  length-side_flags : length (side_flags exchanges bases turns) ≡ length exchanges
  unfolding side_flags sides_of
  length-side_flags = length-map _ (range 0 (length exchanges)) ∙ length-range 0 (length exchanges)

  abbrev result : Segmentation
  result = cut exchanges bases turns

  abbrev children : List ℕ
  children = (fanout_of bases (length exchanges)).children

  abbrev flags : List Bool
  flags = side_flags exchanges bases turns

  abbrev keys : ℕ → Key
  keys = key_of exchanges bases turns

  inv : CutInv bases children keys flags (length flags) (cut_all bases children keys flags)
  inv = cut_all-CutInv bases children keys flags

  segment_inv :
      (s : ℕ) (segment : Segment)
      → get_elem? result.segments s ≡ some segment
      → SegmentInv bases children keys flags
          (length flags)
          result.segment_of
          (cut_all bases children keys flags).main_of
          s
          segment
  unfolding cut
  segment_inv = inv.each

  -- Segments stand in the order of their first exchanges.
  pub cut-ascending :
      (s t f g : ℕ) (a b : Segment)
      → s < t
      → get_elem? result.segments s ≡ some a
      → get_elem? result.segments t ≡ some b
      → first a.exchanges ≡ some f
      → first b.exchanges ≡ some g
      → f < g
  unfolding cut
  cut-ascending = inv.ascending

  -- Every exchange is in the segment that `segment_of` names for it.
  pub cut-located :
      (i : ℕ)
      → i < length exchanges
      → (segment : Segment) × (get_elem? result.segments (get_or result.segment_of i 0)
          ≡ some segment)
        × (contains segment.exchanges i ≡ true)
  unfolding cut
  cut-located i h = inv.located i (omega (arith, length-side_flags))

  member :
      (s i : ℕ) (segment : Segment)
      → (e : get_elem? result.segments s ≡ some segment) → contains segment.exchanges i ≡ true
      → Member bases children keys flags
          (length flags)
          result.segment_of
          s
          segment.side
          (segment_inv s segment e).home
          i
  member s i segment e m =
      All-contains
        (Member bases children keys flags (length flags) result.segment_of s segment.side
          (segment_inv s segment e).home)
        segment.exchanges i (segment_inv s segment e).members m

  -- A member of a segment is an exchange of the session, and no other segment holds it: it is the
  -- segment that `segment_of` names.
  pub cut-disjoint :
      (s i : ℕ) (segment : Segment)
      → get_elem? result.segments s ≡ some segment
      → contains segment.exchanges i ≡ true
      → (i < length exchanges) × (get_or result.segment_of i 0 ≡ s)
  cut-disjoint s i segment e m =
      let w = member s i segment e m in (omega (arith, w.placed, length-side_flags), w.located)

  -- The members of a segment share their turn and their group, which is the segment's.
  pub cut-same_group :
      (s i : ℕ) (segment : Segment)
      → get_elem? result.segments s ≡ some segment
      → contains segment.exchanges i ≡ true
      → (head : ℕ) × (first segment.exchanges ≡ some head)
        × (get_or turns.of i none ≡ get_or turns.of head none)
        × ((keys i).1 ≡ segment.group)
  unfolding key_of
  cut-same_group s i segment e m =
      let w = segment_inv s segment e in
      let at_head = member s w.head segment e (first-contains segment.exchanges w.head w.begins) in
      (
        w.head,
        w.begins,
        ap (λ (k : Key). k.0) ((member s i segment e m).same_key ∙ sym at_head.same_key),
        ap (λ (k : Key). k.1) (member s i segment e m).same_key ∙ sym w.group,
      )

  -- A side segment has one exchange.
  pub cut-side_lone :
      (s : ℕ) (segment : Segment)
      → get_elem? result.segments s ≡ some segment
      → segment.side ≡ true
      → length segment.exchanges ≡ 1
  cut-side_lone s segment e h = let w = segment_inv s segment e in ap length (w.lone h)

  -- A group has at most one main line in a turn: two main-line segments with an exchange of the
  -- same turn and group are one.
  pub cut-main_unique :
      (s t i j : ℕ) (a b : Segment)
      → get_elem? result.segments s ≡ some a
      → get_elem? result.segments t ≡ some b
      → a.side ≡ false
      → b.side ≡ false
      → contains a.exchanges i ≡ true
      → contains b.exchanges j ≡ true
      → keys i ≡ keys j
      → s ≡ t
  cut-main_unique s t i j a b e e' h h' m m' same =
      let w = segment_inv s a e in
      let w' = segment_inv t b e' in
      let home : w.home ≡ w'.home =
        sym (member s i a e m).same_key ∙ same ∙ (member t j b e' m').same_key in
      some-injective s t (
        sym (w.main h)
        ∙ ap (λ k. lookup k (cut_all bases children keys flags).main_of) home
        ∙ w'.main h')

  -- No segment begins before the one that holds an earlier exchange.
  base_before :
      (s head b : ℕ) (segment : Segment)
      → get_elem? result.segments s ≡ some segment
      → first segment.exchanges ≡ some head
      → head < length exchanges
      → b < head
      → get_or result.segment_of b 0 < s
  base_before s head b segment e begins placed lt =
      let (home, at, m) = cut-located b (omega arith) in
      let w = segment_inv (get_or result.segment_of b 0) home at in
      let low : w.head ≤ b = All-contains (λ i. w.head ≤ i) home.exchanges b w.rising m in
      elim (le-or-lt s (get_or result.segment_of b 0)) [
        | inr before ↦ before
        | inl (inl same) ↦
            let e' =
              some-injective segment home (sym e ∙ ap (get_elem? result.segments) same ∙ at) in
            let h : head ≡ w.head =
              some-injective head w.head
                (sym begins ∙ ap (λ (x : Segment). first x.exchanges) e' ∙ w.begins) in
            absurd (omega arith)
        | inl (inr after) ↦ absurd (
            omega (
              arith,
              cut-ascending s (get_or result.segment_of b 0) head w.head segment home after e at
                  begins w.begins,
            ))
      ]

  parent_before :
      (s head : ℕ) (segment : Segment)
      → get_elem? result.segments s ≡ some segment
      → first segment.exchanges ≡ some head
      → head < length exchanges
      → segment.parent ≡ map_option (λ base. get_or result.segment_of base 0) (earlier bases head)
      → (p : ℕ) → segment.parent ≡ some p
      → p < s
  parent_before s head segment e begins placed h p q = elim (Option-cases (earlier bases head)) [
    | inl none_earlier ↦
        absurd (cc (ap (map_option (λ base. get_or result.segment_of base 0)) none_earlier))
    | inr (b, at) ↦
        let parent : p ≡ get_or result.segment_of b 0 =
          some-injective p (get_or result.segment_of b 0)
            (sym q ∙ h ∙ ap (map_option (λ base. get_or result.segment_of base 0)) at) in
        rw parent (
          base_before s head b segment e begins placed
            (earlier-lt bases children keys flags head b at))
  ]

  -- The parent of a segment is the segment of its first exchange's base, where that is earlier.
  pub cut-parent :
      (s : ℕ) (segment : Segment)
      → get_elem? result.segments s ≡ some segment
      → (head : ℕ) × (first segment.exchanges ≡ some head)
        × (segment.parent
            ≡ map_option (λ base. get_or result.segment_of base 0) (earlier bases head))
  cut-parent s segment e = let w = segment_inv s segment e in (w.head, w.begins, w.parent)

  -- The parent of a segment stands before the segment: parents form a forest.
  pub cut-parent_before :
      (s p : ℕ) (segment : Segment)
      → get_elem? result.segments s ≡ some segment
      → segment.parent ≡ some p
      → p < s
  cut-parent_before s p segment e h =
      let w = segment_inv s segment e in
      parent_before s w.head segment e w.begins (omega (arith, w.head_placed, length-side_flags))
        w.parent p h

  -- What holds of every member of a segment with the first exchange `head`.
  abbrev pub Belongs : ℕ → ℕ → Segment → ℕ → Type 0
  Belongs s head segment i =
      (i < length exchanges)
      × (get_or result.segment_of i 0 ≡ s)
      × (get_or turns.of i none ≡ get_or turns.of head none)
      × ((keys i).1 ≡ segment.group)

  -- Each segment has a first exchange. Every member of the segment is an exchange of the session
  -- that no other segment holds and that has the turn of the first and the segment's group, and a
  -- side segment has one member. The parent of the segment is the segment of its first exchange's
  -- base, where that is earlier, and it stands before the segment, so that parents form a forest.
  pub cut-Belongs :
      (s : ℕ) (segment : Segment)
      → get_elem? result.segments s ≡ some segment
      → (head : ℕ) × (first segment.exchanges ≡ some head)
        × All (Belongs s head segment) segment.exchanges
        × ((segment.side ≡ false) ⊎ (length segment.exchanges ≡ 1))
        × (segment.parent
            ≡ map_option (λ base. get_or result.segment_of base 0) (earlier bases head))
        × All (λ parent. parent < s) (to_list segment.parent)
  cut-Belongs s segment e =
      let w = segment_inv s segment e in
      (
        w.head,
        w.begins,
        All-of_contains (Belongs s w.head segment) segment.exchanges (λ i m.
            let (placed, located) = cut-disjoint s i segment e m in
            let (head, begins, turn, group) = cut-same_group s i segment e m in
            let same : head ≡ w.head = some-injective head w.head (sym begins ∙ w.begins) in
            (placed, located, turn ∙ ap (λ h. get_or turns.of h none) same, group)),
        elim (Bool-cases segment.side) [
          | inl side ↦ inr (cut-side_lone s segment e side)
          | inr main ↦ inl main
        ],
        w.parent,
        elim (Option-cases segment.parent) [
          | inl root ↦ rw root tt
          | inr (parent, at) ↦ rw at (cut-parent_before s parent segment e at, tt)
        ],
      )
