-- ===== src/Streams/Segmentation/Joining.antt =====
-- One exchange joins the main line of its group, in the last loop of `Segmentation::cut`.
use abyss_backend.Common.{
  ℕ, suc, ◌<◌, ◌≤◌, Bool, true, false, List, [], ◌∷◌, ◌++◌, some, ◌≡◌, sym, ap, ◌∙◌, inl, inr,
  nat_eq, option_eq, pair_eq, ==-cases, ==_refl, arith, length, length-set, get_elem?, get_or, set,
  get_or-set_self, get_or-set_ne, first, All-map, All-append, contains, lookup, update,
  get_elem?-update_self, get_elem?-update_ne, get_elem?-of_update,
}
use abyss_backend.Streams.Bases.{Base}
use abyss_backend.Streams.Segmentation.{Key, Segment, group_eq, Cutting, push_member, place}
use abyss_backend.Streams.Segmentation.Invariant.{
  Member, SegmentInv, CutInv, Member-later, parent-later,
}

pub contains-append_left :
    (xs ys : List ℕ) (i : ℕ) → contains xs i ≡ true → contains (xs ++ ys) i ≡ true
contains-append_left [] ys i h = cc
contains-append_left (x ∷ xs) ys i h = ground (arith, contains-append_left xs ys i)

pub contains-append_end : (xs : List ℕ) (i : ℕ) → contains (xs ++ i ∷ []) i ≡ true
contains-append_end [] i = rw (==_refl i)
contains-append_end (x ∷ xs) i = ground (arith, contains-append_end xs i)

first-append : (xs ys : List ℕ) (f : ℕ) → first xs ≡ some f → first (xs ++ ys) ≡ some f
first-append [] ys f h = cc
first-append (x ∷ xs) ys f h = h

module _ (bases : List Base) (children : List ℕ) (key : ℕ → Key) (sides : List Bool) where
  -- A placement elsewhere leaves a segment's invariant.
  pub SegmentInv-later :
      (count : ℕ) (c : Cutting) (s t : ℕ) (segment : Segment)
      → SegmentInv bases children key sides count c.segment_of c.main_of s segment
      → SegmentInv bases children key sides
          (suc count)
          (set c.segment_of count t)
          c.main_of
          s
          segment
  SegmentInv-later count c s t segment v = record {
    home = v.home;
    head = v.head;
    members =
        All-map (Member bases children key sides count c.segment_of s segment.side v.home)
          (Member bases children key sides (suc count) (set c.segment_of count t) s segment.side
            v.home)
          segment.exchanges
          (λ i m.
            Member-later bases children key sides count c.segment_of s t segment.side v.home i m)
          v.members;
    begins = v.begins;
    head_placed = omega (arith, v.head_placed);
    rising = v.rising;
    group = v.group;
    kind = v.kind;
    parent =
        v.parent
        ∙ parent-later bases children key sides count t v.head c.segment_of
            (omega (arith, v.head_placed));
    main = v.main;
    lone = v.lone;
  }

  -- The segment that the exchange joins.
  SegmentInv-join :
      (count : ℕ) (c : Cutting) (s : ℕ) (segment : Segment)
      → count < length c.segment_of
      → segment.side ≡ false
      → get_elem? sides count ≡ some false
      → (v : SegmentInv bases children key sides count c.segment_of c.main_of s segment)
      → key count ≡ v.home
      → SegmentInv bases children key sides
          (suc count)
          (set c.segment_of count s)
          c.main_of
          s
          (push_member count segment)
  unfolding SegmentInv-later
  SegmentInv-join count c s segment lt main_line side v same =
      let w = SegmentInv-later count c s s segment v in
      record {
        home = v.home;
        head = v.head;
        members =
            All-append
              (Member bases children key sides (suc count) (set c.segment_of count s) s segment.side
                v.home)
              segment.exchanges (count ∷ []) w.members
              (
                record {
                  placed = omega arith;
                  located = get_or-set_self c.segment_of count s 0 lt;
                  same_key = same;
                  same_side = side ∙ ap some (sym main_line);
                },
                tt,
              );
        begins = first-append segment.exchanges (count ∷ []) v.head v.begins;
        head_placed = w.head_placed;
        rising =
            All-append (λ i. v.head ≤ i) segment.exchanges (count ∷ []) v.rising
              (omega (arith, v.head_placed), tt);
        group = v.group;
        kind = v.kind;
        parent = w.parent;
        main = v.main;
        lone = λ p. cc;
      }

  first-push :
      (count f : ℕ) (segment : Segment)
      → (h : ℕ) × (first segment.exchanges ≡ some h)
      → first (push_member count segment).exchanges ≡ some f
      → first segment.exchanges ≡ some f
  first-push count f segment (h, e) p =
      e ∙ sym (first-append segment.exchanges (count ∷ []) h e) ∙ p

  -- The exchange `count` joins segment `s`, the main line of its key.
  module _ (count : ℕ) (c : Cutting) (s : ℕ) (v : CutInv bases children key sides count c)
      (side : get_elem? sides count ≡ some false) (lt : count < length sides)
      (known : lookup (key count) c.main_of ≡ some s) where
    found : (segment : Segment) × (get_elem? c.segments s ≡ some segment) × (segment.side ≡ false)
    found = v.mains (key count) s known

    room : count < length c.segment_of
    room = omega (arith, v.sized, lt)

    joined :
        SegmentInv bases children key sides
          (suc count)
          (set c.segment_of count s)
          c.main_of
          s
          (push_member count found.0)
    joined =
        let w = v.each s found.0 found.1 in
        SegmentInv-join count c s found.0 room found.2 side w
          (v.injective (key count) w.home s known (w.main found.2))

    join_each :
        (t : ℕ) (segment : Segment)
        → get_elem? (update (push_member count) s c.segments) t ≡ some segment
        → SegmentInv bases children key sides
            (suc count)
            (set c.segment_of count s)
            c.main_of
            t
            segment
    join_each t segment e =
        elim (get_elem?-of_update (push_member count) s t c.segments found.0 segment found.1 e) [
          | inl (p, q) ↦ rw (p, q) joined
          | inr (p, q) ↦ SegmentInv-later count c t s segment (v.each t segment q)
        ]

    join_located :
        (i : ℕ)
        → i < suc count
        → (segment : Segment) × (get_elem?
              (update (push_member count) s c.segments)
              (get_or (set c.segment_of count s) i 0)
            ≡ some segment)
          × (contains segment.exchanges i ≡ true)
    join_located i h = elim (==-cases i count) [
      | inl (_, e) ↦ (
        push_member count found.0,
        rw e (
            rw (get_or-set_self c.segment_of count s 0 room)
              (get_elem?-update_self (push_member count) s c.segments found.0 found.1)),
        rw e (contains-append_end found.0.exchanges count),
      )
      | inr (_, n) ↦
          let (segment, e, m) = v.located i (omega arith) in
          elim (==-cases s (get_or c.segment_of i 0)) [
            | inl (_, p) ↦ (
              push_member count segment,
              rw (get_or-set_ne c.segment_of count i s 0 (λ q. n (sym q))) (
                  rw p (
                    get_elem?-update_self (push_member count) (get_or c.segment_of i 0) c.segments
                      segment e)),
              contains-append_left segment.exchanges (count ∷ []) i m,
            )
            | inr (_, p) ↦ (
              segment,
              rw (get_or-set_ne c.segment_of count i s 0 (λ q. n (sym q))) (
                  get_elem?-update_ne (push_member count) s (get_or c.segment_of i 0) c.segments p
                  ∙ e),
              m,
            )
          ]
    ]

    join_mains :
        (home : Key) (t : ℕ)
        → lookup home c.main_of ≡ some t
        → (segment : Segment) × (get_elem? (update (push_member count) s c.segments) t
            ≡ some segment)
          × (segment.side ≡ false)
    join_mains home t e =
        let (segment, f, m) = v.mains home t e in
        elim (==-cases s t) [
          | inl (_, p) ↦ (
            push_member count segment,
            rw p (get_elem?-update_self (push_member count) t c.segments segment f),
            m,
          )
          | inr (_, p) ↦ (segment, get_elem?-update_ne (push_member count) s t c.segments p ∙ f, m)
        ]

    -- A segment of the new list begins as one of the old list at its place does.
    join_begins :
        (t f : ℕ) (a : Segment)
        → get_elem? (update (push_member count) s c.segments) t ≡ some a
        → first a.exchanges ≡ some f
        → (old : Segment) × (get_elem? c.segments t ≡ some old) × (first old.exchanges ≡ some f)
    join_begins t f a e h =
        elim (get_elem?-of_update (push_member count) s t c.segments found.0 a found.1 e) [
          | inl (p, q) ↦ (
            found.0,
            rw p found.1,
            (let w = v.each s found.0 found.1 in
                first-push count f found.0 (w.head, w.begins)
                  (ap (λ (x : Segment). first x.exchanges) (sym q) ∙ h)),
          )
          | inr (p, q) ↦ (a, q, h)
        ]

    pub join-CutInv : CutInv bases children key sides (suc count) (place count s c)
    unfolding place
    join-CutInv = record {
      sized = length-set c.segment_of count s ∙ v.sized;
      fits = lt;
      each = join_each;
      located = join_located;
      mains = join_mains;
      injective = v.injective;
      ascending = λ t u f g a b h e e' p p'.
          let (x, ex, px) = join_begins t f a e p in
          let (y, ey, py) = join_begins u g b e' p' in v.ascending t u f g x y h ex ey px py;
    }
