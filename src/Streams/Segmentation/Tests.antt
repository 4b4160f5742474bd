-- ===== src/Streams/Segmentation/Tests.antt =====
-- `Segmentation::cut` of segmentation.rs on the sample session.
use abyss_backend.Common.{
  All, ◌⊎◌, length, ℕ, ◌<◌, true, false, [], ◌∷◌, none, some, ◌≡◌, refl, ap, arith, length,
  get_elem?, get_or, contains, map_option, nat_eq,
}
use abyss_backend.Streams.Sample.{sample_exchanges, sample_bases, sample_turns}
use abyss_backend.Streams.Segmentation.{
  Segment, Segmentation, root, turn, branch, line, earlier, base_of, fanout_of, count_child,
  continued_children_of, count_continued_child, group_of, groups_of, looks_side, sides_of, kind_of,
  place, open_segment, cut_one, cut_all, key_of, side_flags, cut,
}
use abyss_backend.Streams.Segmentation.Laws.{cut-located, cut-Belongs, Belongs, cut-main_unique}

abbrev main_line : Segment
main_line = record {
  kind = root;
  parent = none;
  exchanges = 0 ∷ 1 ∷ [];
  group = line 0;
  side = false;
}

abbrev aside : Segment
aside = record { kind = branch; parent = some 0; exchanges = 2 ∷ []; group = line 0; side = true }

abbrev next_turn : Segment
next_turn = record {
  kind = turn;
  parent = some 0;
  exchanges = 3 ∷ [];
  group = line 0;
  side = false;
}

abbrev sample_cut : Segmentation
sample_cut = record {
  segments = main_line ∷ aside ∷ next_turn ∷ [];
  segment_of = 0 ∷ 0 ∷ 1 ∷ 2 ∷ [];
}

cut_sample : cut sample_exchanges sample_bases sample_turns ≡ sample_cut
unfolding cut cut_all cut_one place open_segment kind_of earlier base_of fanout_of count_child
    continued_children_of count_continued_child group_of groups_of looks_side sides_of key_of
    side_flags
cut_sample = refl

segment_at :
    (s : ℕ)
    → get_elem? (cut sample_exchanges sample_bases sample_turns).segments s
      ≡ get_elem? sample_cut.segments s
segment_at s = ap (λ (c : Segmentation). get_elem? c.segments s) cut_sample

same_key :
    key_of sample_exchanges sample_bases sample_turns 0
    ≡ key_of sample_exchanges sample_bases sample_turns 1
unfolding earlier base_of fanout_of count_child continued_children_of count_continued_child group_of
    groups_of key_of
same_key = refl

cut-located_example :
    (segment : Segment) × (get_elem?
        (cut sample_exchanges sample_bases sample_turns).segments
        (get_or (cut sample_exchanges sample_bases sample_turns).segment_of 2 0)
      ≡ some segment)
    × (contains segment.exchanges 2 ≡ true)
cut-located_example = cut-located sample_exchanges sample_bases sample_turns 2 (omega arith)

cut-main_unique_example : ◌≡◌ {A = ℕ} 0 0
cut-main_unique_example =
    cut-main_unique sample_exchanges sample_bases sample_turns 0 0 0 1 main_line main_line
      (segment_at 0) (segment_at 0) refl refl refl refl same_key

cut-Belongs_example :
    (head : ℕ) × (some 3 ≡ some head)
    × All (Belongs sample_exchanges sample_bases sample_turns 2 head next_turn) (3 ∷ [])
    × ((false ≡ false) ⊎ (length next_turn.exchanges ≡ 1))
    × (some 0
        ≡ map_option
            (λ base. get_or (cut sample_exchanges sample_bases sample_turns).segment_of base 0)
            (earlier sample_bases head))
    × ((0 < 2) × Unit {0})
cut-Belongs_example =
    cut-Belongs sample_exchanges sample_bases sample_turns 2 next_turn (segment_at 2)
