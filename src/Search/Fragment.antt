-- ===== src/Search/Fragment.antt =====
-- search/matching/fragment.rs: the highlighted window of a text around its first occurrence.
pub mod Windows
pub mod Highlights
pub mod Segments
pub mod Shown
use abyss_backend.Common.{
  ℕ, zero, suc, ◌+◌, ◌-◌, ◌/◌, min, max, Bool, true, false, not, ◌&&◌, List, [], ◌∷◌, ◌++◌, map,
  Option, none, some, ltb, ◌==◌, nat_eq, if◌then◌else◌, length, keep, and_then, map_option,
}
use abyss_backend.Search.Text.{Text, len_utf8, get_bytes}
use abyss_backend.Search.Pattern.{Range, character_offsets, as_pairs, endpoints}

abbrev pub fragment_characters : ℕ
fragment_characters = 240

-- `"…"`
abbrev pub ellipsis : Text
ellipsis = 8230 ∷ []

-- `SearchFragmentSegment`; a `SearchFragment` is the list of its segments.
pub record FragmentSegment : Type 0 where
  pub text : Text
  pub highlighted : Bool

-- `window`
unfoldable pub window : Range → ℕ → Range
window (start, end) characters =
    let count = end - start in
    let width = max fragment_characters count in
    let from = start - (width - count) / 2 in
    let to = min characters (from + width) in (min (to - width) from, to)

-- `push_segment`
abbrev pub push_segment : List FragmentSegment → Text → Bool → List FragmentSegment
push_segment segments [] highlighted = segments
push_segment segments (c ∷ text) highlighted =
    segments ++ record { text = c ∷ text; highlighted = highlighted } ∷ []

abbrev pub plain : Text → FragmentSegment
plain text = record { text = text; highlighted = false }

-- The occurrences that the window shows, cut to it.
unfoldable pub visible : Range → List Range → List Range
visible (from, to) occurrences =
    map (λ (r : Range). (max r.0 from, min r.1 to))
      (keep (λ (r : Range). ltb r.0 to && ltb from r.1) occurrences)

-- The loop over the highlights, with the segment after the last one.
unfoldable pub split_segments :
    Text → ℕ → List FragmentSegment → ℕ → List Range → Option (List FragmentSegment)
split_segments text window_end segments plain_start [] =
    map_option (λ t. push_segment segments t false) (get_bytes text plain_start window_end)
split_segments text window_end segments plain_start ((start, end) ∷ highlights) =
    and_then (get_bytes text plain_start start) λ before.
      and_then (get_bytes text start end) λ highlight.
        split_segments text window_end
          (push_segment (push_segment segments before false) highlight true) end highlights

-- `match segments.first_mut()`
abbrev pub mark_start : List FragmentSegment → List FragmentSegment
mark_start [] = plain ellipsis ∷ []
mark_start (segment ∷ segments) =
    if segment.highlighted
    then plain ellipsis ∷ segment ∷ segments
    else record segment { text = ellipsis ++ segment.text } ∷ segments

-- `match segments.last_mut()`
abbrev pub mark_end : List FragmentSegment → List FragmentSegment
mark_end [] = plain ellipsis ∷ []
mark_end (segment ∷ []) =
    if segment.highlighted
    then segment ∷ plain ellipsis ∷ []
    else record segment { text = segment.text ++ ellipsis } ∷ []
mark_end (segment ∷ next ∷ segments) = segment ∷ mark_end (next ∷ segments)

-- `rest.split_last()`: the last element, and what stands before it.
abbrev pub split_last : List ℕ → Option (ℕ × List ℕ)
split_last [] = none
split_last (n ∷ []) = some (n, [])
split_last (n ∷ m ∷ ns) = map_option (λ (s : ℕ × List ℕ). (s.0, n ∷ s.1)) (split_last (m ∷ ns))

-- `fragment`, from the byte offsets of the window and its highlights on.
unfoldable pub cut_fragment : Text → Range → List ℕ → Option (List FragmentSegment)
unfolding split_segments
cut_fragment text (from, to) [] = none
cut_fragment text (from, to) (window_start ∷ rest) =
    and_then (split_last rest) λ (last : ℕ × List ℕ).
      map_option
        (λ segments.
          let started = if ltb 0 from then mark_start segments else segments in
          if ltb to (length text) then mark_end started else started)
        (split_segments text last.0 [] window_start (as_pairs last.1))

-- `fragment`
unfoldable pub fragment : Text → List Range → Option (List FragmentSegment)
unfolding window visible character_offsets cut_fragment
fragment text [] = none
fragment text (first ∷ occurrences) =
    let shown = window first (length text) in
    cut_fragment text shown (
      character_offsets text
        (shown.0 ∷ (endpoints (visible shown (first ∷ occurrences)) ++ shown.1 ∷ [])) len_utf8)
