-- ===== src/Streams/Segmentation/Opening.antt =====
-- One exchange opens a segment, in the last loop of `Segmentation::cut`.
use abyss_backend.Common.{
  ℕ, suc, ◌<◌, Bool, true, false, List, [], ◌∷◌, ◌++◌, some, ◌≡◌, refl, sym, ap, ◌∙◌, ◌≢◌, ◌⊎◌, inl,
  inr, nat_eq, option_eq, pair_eq, ==-cases, ==_refl, arith, length, length-set, get_elem?, get_or,
  set, get_or-set_self, get_or-set_ne, first, contains, map_option, lookup, get_elem?-append_some,
  get_elem?-append_end, get_elem?-snoc, lt-of_get_elem?,
}
use mathlib.Core.Option.{some-injective}
use abyss_backend.Streams.Bases.{Base}
use abyss_backend.Streams.Segmentation.{Key, Segment, group_eq, Cutting, earlier, kind_of}
use abyss_backend.Streams.Segmentation.Invariant.{SegmentInv, CutInv, parent-later}
use abyss_backend.Streams.Segmentation.Joining.{SegmentInv-later}

module _ (bases : List Base) (children : List ℕ) (key : ℕ → Key) (sides : List Bool) where
  -- A segment with its first exchange.
  abbrev pub fresh : ℕ → Bool → List ℕ → Segment
  fresh count side segment_of = record {
    kind = kind_of bases children count;
    parent = map_option (λ base. get_or segment_of base 0) (earlier bases count);
    exchanges = count ∷ [];
    group = (key count).1;
    side = side;
  }

  -- What a new entry of `main_of` changes.
  pub record Grows (count : ℕ) (side : Bool) (s : ℕ) (before after : List (Key × ℕ)) : Type 0 where
    pub kept : (home : Key) (t : ℕ) → lookup home before ≡ some t → lookup home after ≡ some t
    pub only :
        (home : Key) (t : ℕ)
        → lookup home after ≡ some t
        → (lookup home before ≡ some t) ⊎ ((t ≡ s) × (home ≡ key count) × (side ≡ false))
    pub new : side ≡ false → lookup (key count) after ≡ some s

  module _ (count : ℕ) (c : Cutting) (side : Bool) (after : List (Key × ℕ))
      (v : CutInv bases children key sides count c) (on_side : get_elem? sides count ≡ some side)
      (lt : count < length sides) (g : Grows count side (length c.segments) c.main_of after) where
    abbrev s : ℕ
    s = length c.segments

    abbrev opened : List Segment
    opened = c.segments ++ fresh count side c.segment_of ∷ []

    room : count < length c.segment_of
    room = omega (arith, v.sized, lt)

    fresh-SegmentInv :
        SegmentInv bases children key sides
          (suc count)
          (set c.segment_of count s)
          after
          s
          (fresh count side c.segment_of)
    fresh-SegmentInv = record {
      home = key count;
      head = count;
      members = (
        record {
          placed = omega arith;
          located = get_or-set_self c.segment_of count s 0 room;
          same_key = refl;
          same_side = on_side;
        },
        tt,
      );
      begins = refl;
      head_placed = omega arith;
      rising = (omega arith, tt);
      group = refl;
      kind = refl;
      parent = parent-later bases children key sides count s count c.segment_of (omega arith);
      main = g.new;
      lone = λ p. refl;
    }

    SegmentInv-grows :
        (t : ℕ) (segment : Segment)
        → SegmentInv bases children key sides
            (suc count)
            (set c.segment_of count s)
            c.main_of
            t
            segment
        → SegmentInv bases children key sides (suc count) (set c.segment_of count s) after t segment
    SegmentInv-grows t segment w = record {
      home = w.home;
      head = w.head;
      members = w.members;
      begins = w.begins;
      head_placed = w.head_placed;
      rising = w.rising;
      group = w.group;
      kind = w.kind;
      parent = w.parent;
      main = λ p. g.kept w.home t (w.main p);
      lone = w.lone;
    }

    open_each :
        (t : ℕ) (segment : Segment)
        → get_elem? opened t ≡ some segment
        → SegmentInv bases children key sides (suc count) (set c.segment_of count s) after t segment
    open_each t segment e =
        elim (get_elem?-snoc c.segments (fresh count side c.segment_of) t segment e) [
          | inl old ↦
              SegmentInv-grows t segment (
                SegmentInv-later bases children key sides count c t s segment
                  (v.each t segment old))
          | inr (p, q) ↦ rw (p, ← q) fresh-SegmentInv
        ]

    open_located :
        (i : ℕ)
        → i < suc count
        → (segment : Segment) × (get_elem? opened (get_or (set c.segment_of count s) i 0)
            ≡ some segment)
          × (contains segment.exchanges i ≡ true)
    open_located i h = elim (==-cases i count) [
      | inl (_, e) ↦ (
        fresh count side c.segment_of,
        rw e (
            rw (get_or-set_self c.segment_of count s 0 room)
              (get_elem?-append_end c.segments (fresh count side c.segment_of) s refl)),
        rw e (rw (==_refl count)),
      )
      | inr (_, n) ↦
          let (segment, e, m) = v.located i (omega arith) in
          (
            segment,
            rw (get_or-set_ne c.segment_of count i s 0 (λ q. n (sym q))) (
                get_elem?-append_some c.segments (fresh count side c.segment_of ∷ [])
                  (get_or c.segment_of i 0) segment e),
            m,
          )
    ]

    open_mains :
        (home : Key) (t : ℕ)
        → lookup home after ≡ some t
        → (segment : Segment) × (get_elem? opened t ≡ some segment) × (segment.side ≡ false)
    open_mains home t e = elim (g.only home t e) [
      | inl old ↦
          let (segment, f, m) = v.mains home t old in
          (
            segment,
            get_elem?-append_some c.segments (fresh count side c.segment_of ∷ []) t segment f,
            m,
          )
      | inr (p, _, q) ↦ (
        fresh count side c.segment_of,
        get_elem?-append_end c.segments (fresh count side c.segment_of) t p,
        q,
      )
    ]

    -- The new number stands for no older key.
    not_older : (home : Key) → lookup home c.main_of ≢ some s
    not_older home e =
        let (segment, f, _) = v.mains home s e in
        absurd (omega (arith, lt-of_get_elem? c.segments s f))

    open_injective :
        (home home' : Key) (t : ℕ)
        → lookup home after ≡ some t
        → lookup home' after ≡ some t
        → home ≡ home'
    open_injective home home' t e e' = elim (g.only home t e) [
      | inl old ↦ elim (g.only home' t e') [
        | inl old' ↦ v.injective home home' t old old'
        | inr (p, _, _) ↦ absurd (not_older home (old ∙ ap some p))
      ]
      | inr (p, q, _) ↦ elim (g.only home' t e') [
        | inl old' ↦ absurd (not_older home' (old' ∙ ap some p))
        | inr (_, q', _) ↦ q ∙ sym q'
      ]
    ]

    open_ascending :
        (t u f k : ℕ) (a b : Segment)
        → t < u
        → get_elem? opened t ≡ some a
        → get_elem? opened u ≡ some b
        → first a.exchanges ≡ some f
        → first b.exchanges ≡ some k
        → f < k
    open_ascending t u f k a b h e e' p p' =
        elim (get_elem?-snoc c.segments (fresh count side c.segment_of) t a e) [
          | inr (q, _) ↦
              absurd (elim (get_elem?-snoc c.segments (fresh count side c.segment_of) u b e') [
                | inl old' ↦ omega (arith, lt-of_get_elem? c.segments u old')
                | inr (q', _) ↦ omega arith
              ])
          | inl old ↦ elim (get_elem?-snoc c.segments (fresh count side c.segment_of) u b e') [
            | inl old' ↦ v.ascending t u f k a b h old old' p p'
            | inr (_, r) ↦
                let w = v.each t a old in
                let same : w.head ≡ f = some-injective w.head f (sym w.begins ∙ p) in
                let last : count ≡ k =
                  some-injective count k (ap (λ (x : Segment). first x.exchanges) r ∙ p') in
                omega (arith, w.head_placed)
          ]
        ]

    pub open-CutInv :
        CutInv bases children key sides
          (suc count)
          (record { segments = opened; segment_of = set c.segment_of count s; main_of = after })
    open-CutInv = record {
      sized = length-set c.segment_of count s ∙ v.sized;
      fits = lt;
      each = open_each;
      located = open_located;
      mains = open_mains;
      injective = open_injective;
      ascending = open_ascending;
    }
