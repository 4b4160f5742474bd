-- ===== src/Projection/Markers.antt =====
-- The marker pair around highlighted text (storage/postgres/search/projection.rs).
use abyss_backend.Common.{
  ℕ, zero, suc, ◌+◌, Bool, true, false, String, List, [], ◌∷◌, ◌++◌, Option, none, some, ltb, leb,
  if◌then◌else◌, length, take, map_option,
}
use abyss_backend.Search.Text.{Text, codes}
use abyss_backend.Search.Text.Trimming.{remove, split_once}
use abyss_backend.Search.Fragment.{FragmentSegment, push_segment}
pub mod Rendering

abbrev pub highlight_start : Text
highlight_start = codes "[[[ABYSS_SEARCH_HIGHLIGHT_START]]]"

abbrev pub highlight_end : Text
highlight_end = codes "[[[ABYSS_SEARCH_HIGHLIGHT_END]]]"

-- The loop of `parse_fragment`, on fuel; `none` where the fuel runs out. `tagged` is the marker with
-- what follows it.
unfoldable pub parse_rounds : ℕ → List FragmentSegment → Text → Option (List FragmentSegment)
parse_rounds zero segments remainder = none
parse_rounds (suc fuel) segments remainder = elim (split_once highlight_start remainder) [
  | none ↦ some (push_segment segments remainder false)
  | some (plain, highlighted) ↦ elim (split_once highlight_end highlighted) [
    | none ↦
        some
          (push_segment (push_segment segments plain false) (highlight_start ++ highlighted) false)
    | some (matched, after_match) ↦
        parse_rounds fuel (push_segment (push_segment segments plain false) matched true)
          after_match
  ]
]

unfoldable pub parse_fragment : Text → Option (List FragmentSegment)
unfolding parse_rounds
parse_fragment fragment = parse_rounds (suc (length fragment)) [] fragment

unfoldable pub sanitize_search_text : Text → Text
unfolding remove
sanitize_search_text value = remove highlight_end (remove highlight_start value)

-- The text of a segment as Elasticsearch marks it.
unfoldable pub render : List FragmentSegment → Text
render [] = []
render (segment ∷ segments) =
    (if segment.highlighted
      then highlight_start ++ (segment.text ++ highlight_end)
      else segment.text)
    ++ render segments
