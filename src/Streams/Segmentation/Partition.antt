-- ===== src/Streams/Segmentation/Partition.antt =====
-- `Segmentation::cut` of segmentation.rs cuts the exchanges into segments: what holds of the cut.
use abyss_backend.Common.{
  ℕ, suc, Bool, true, false, List, [], ◌∷◌, ◌++◌, none, some, ◌≡◌, refl, sym, ap, subst, ◌∙◌, ◌⊎◌,
  inl, inr, nat_eq, option_eq, pair_eq, ==-cases, Option-cases, arith, if◌then◌else◌, length,
  length-replicate, get_elem?, set, lookup, insert, lookup-insert_self, lookup-insert_ne,
  update-append_end, lt-of_get_elem?, for_each_rule,
}
use mathlib.Core.Option.{some-injective}
use abyss_backend.Streams.Bases.{Base}
use abyss_backend.Streams.Segmentation.{
  Key, group_eq, Cutting, push_member, place, open_segment, cut_one, no_segments, cut_all,
}
use abyss_backend.Streams.Segmentation.Invariant.{CutInv}
use abyss_backend.Streams.Segmentation.Joining.{join-CutInv}
use abyss_backend.Streams.Segmentation.Opening.{fresh, Grows, open-CutInv}

module _ (bases : List Base) (children : List ℕ) (key : ℕ → Key) (sides : List Bool) where
  after_opening : ℕ → Bool → Cutting → List (Key × ℕ)
  after_opening count side c =
      if side then c.main_of else insert (key count) (length c.segments) c.main_of

  place_opened :
      (count : ℕ) (side : Bool) (c : Cutting)
      → place count (length c.segments) (open_segment bases children key side count c) ≡ record {
        segments = c.segments ++ fresh bases children key sides count side c.segment_of ∷ [];
        segment_of = set c.segment_of count (length c.segments);
        main_of = after_opening count side c;
      }
  unfolding place open_segment after_opening
  place_opened count side c = rw (
      update-append_end (push_member count) c.segments
        (record (fresh bases children key sides count side c.segment_of) { exchanges = [] }))

  after_opening-Grows :
      (count : ℕ) (side : Bool) (c : Cutting)
      → (side ≡ true) ⊎ (lookup (key count) c.main_of ≡ none)
      → Grows bases children key sides count side
          (length c.segments)
          c.main_of
          (after_opening count side c)
  unfolding after_opening
  after_opening-Grows count true c h = record {
    kept = λ home t e. e;
    only = λ home t e. inl e;
    new = λ p. cc;
  }
  after_opening-Grows count false c h = record {
    kept = λ home t e. elim (==-cases (key count) home) [
      | inl (_, q) ↦ absurd (clash home t q e)
      | inr (_, q) ↦ lookup-insert_ne (key count) home (length c.segments) c.main_of q ∙ e
    ];
    only = λ home t e. elim (==-cases (key count) home) [
      | inl (_, q) ↦ inr (
        some-injective t (length c.segments)
            (sym e ∙ rw (← q) (lookup-insert_self (key count) (length c.segments) c.main_of)),
        sym q,
        refl,
      )
      | inr (_, q) ↦
          inl (sym (lookup-insert_ne (key count) home (length c.segments) c.main_of q) ∙ e)
    ];
    new = λ p. lookup-insert_self (key count) (length c.segments) c.main_of;
  }
    where
      unknown : lookup (key count) c.main_of ≡ none
      unknown = elim h [ inl p ↦ absurd (cc) | inr q ↦ q ]

      clash : (home : Key) (t : ℕ) → key count ≡ home → lookup home c.main_of ≡ some t → ⊥
      clash home t q e = cc (unknown, ap (λ k. lookup k c.main_of) q)

  opened-CutInv :
      (count : ℕ) (side : Bool) (c : Cutting)
      → get_elem? sides count ≡ some side
      → (side ≡ true) ⊎ (lookup (key count) c.main_of ≡ none)
      → CutInv bases children key sides count c
      → CutInv bases children key sides
          (suc count)
          (place count (length c.segments) (open_segment bases children key side count c))
  opened-CutInv count side c on_side h v =
      subst (CutInv bases children key sides (suc count)) (sym (place_opened count side c)) (
        open-CutInv bases children key sides count c side (after_opening count side c) v on_side
          (lt-of_get_elem? sides count on_side) (after_opening-Grows count side c h))

  cut_one-CutInv :
      (count : ℕ) (side : Bool) (c : Cutting)
      → get_elem? sides count ≡ some side
      → CutInv bases children key sides count c
      → CutInv bases children key sides (suc count) (cut_one bases children key count side c)
  unfolding cut_one
  cut_one-CutInv count true c on_side v = opened-CutInv count true c on_side (inl refl) v
  cut_one-CutInv count false c on_side v = elim (Option-cases (lookup (key count) c.main_of)) [
    | inl e ↦ rw (e, cut_one) (opened-CutInv count false c on_side (inr e) v)
    | inr (s, e) ↦
        rw (e, cut_one)
          (join-CutInv bases children key sides count c s v on_side
            (lt-of_get_elem? sides count on_side) e)
  ]

  no_segments-CutInv : CutInv bases children key sides 0 (no_segments (length sides))
  no_segments-CutInv = record {
    sized = length-replicate (length sides) 0;
    fits = omega arith;
    each = λ s segment e. cc;
    located = λ i h. absurd (omega arith);
    mains = λ home s e. cc;
    injective = λ home home' s e. cc;
    ascending = λ s t f g a b h e. cc;
  }

  pub cut_all-CutInv :
      CutInv bases children key sides (length sides) (cut_all bases children key sides)
  unfolding cut_all
  cut_all-CutInv =
      for_each_rule (CutInv bases children key sides) (cut_one bases children key) sides
        (λ i side c e v. cut_one-CutInv i side c e v) (no_segments (length sides))
        no_segments-CutInv
