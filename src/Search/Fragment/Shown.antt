-- ===== src/Search/Fragment/Shown.antt =====
-- What `fragment` of fragment.rs shows of a text.
use mathlib.Core.List.{append_assoc, append-nil}
use abyss_backend.Common.{
  ℕ, ◌≤◌, Bool, List, [], ◌∷◌, ◌++◌, map, some, ◌≡◌, refl, sym, ap, ◌∙◌, ltb, arith, length, keep,
  if◌then◌else◌, map_option,
}
use abyss_backend.Search.Text.{Text, len_utf8}
use abyss_backend.Search.Text.Characters.{slice, byte_at}
use abyss_backend.Search.Pattern.{Range, endpoints}
use abyss_backend.Search.Pattern.Offsets.{Ascending, character_offsets-Rising, as_pairs-endpoints}
use abyss_backend.Search.Fragment.{
  FragmentSegment, ellipsis, window, visible, split_last, mark_start, mark_end, cut_fragment,
  fragment,
}
use abyss_backend.Search.Fragment.Windows.{window_lem}
use abyss_backend.Search.Fragment.Highlights.{Within, Within-Rising, visible-Within}
use abyss_backend.Search.Fragment.Segments.{
  sliced, split_segments-sliced, all_text, all_text-sliced, highlights, highlights-sliced, has_text,
  slice_of, all_text-mark_start, all_text-mark_end, highlights-mark_start, highlights-mark_end,
}

map-snoc : (f : ℕ → ℕ) (xs : List ℕ) (z : ℕ) → map f (xs ++ z ∷ []) ≡ map f xs ++ f z ∷ []
map-snoc f [] z = refl
map-snoc f (x ∷ xs) z = ap (λ t. f x ∷ t) (map-snoc f xs z)

split_last-snoc : (xs : List ℕ) (z : ℕ) → split_last (xs ++ z ∷ []) ≡ some (z, xs)
split_last-snoc [] z = refl
split_last-snoc (x ∷ []) z = refl
split_last-snoc (x ∷ y ∷ xs) z =
    ap (map_option (λ (s : ℕ × List ℕ). (s.0, x ∷ s.1))) (split_last-snoc (y ∷ xs) z)

all_text-started :
    (b : Bool) (segments : List FragmentSegment)
    → all_text (if b then mark_start segments else segments)
      ≡ (if b then ellipsis else []) ++ all_text segments
all_text-started Bool.true segments = all_text-mark_start segments
all_text-started Bool.false segments = refl

all_text-finished :
    (b : Bool) (segments : List FragmentSegment)
    → all_text (if b then mark_end segments else segments)
      ≡ all_text segments ++ (if b then ellipsis else [])
all_text-finished Bool.true segments = all_text-mark_end segments
all_text-finished Bool.false segments = sym (append-nil (all_text segments))

highlights-started :
    (b : Bool) (segments : List FragmentSegment)
    → highlights (if b then mark_start segments else segments) ≡ highlights segments
highlights-started Bool.true segments = highlights-mark_start segments
highlights-started Bool.false segments = refl

highlights-finished :
    (b : Bool) (segments : List FragmentSegment)
    → highlights (if b then mark_end segments else segments) ≡ highlights segments
highlights-finished Bool.true segments = highlights-mark_end segments
highlights-finished Bool.false segments = refl

-- The text from `from` to `to`, marked where it was cut off.
abbrev pub shown_text : Text → ℕ → ℕ → Text
shown_text text from to =
    (if ltb 0 from then ellipsis else [])
    ++ (slice text from to ++ (if ltb to (length text) then ellipsis else []))

module _ (text : Text) (from to : ℕ) (ranges : List Range) where
  abbrev offsets : List ℕ
  offsets = map (byte_at text) (endpoints ranges)

  abbrev segments : List FragmentSegment
  segments = sliced text to [] from ranges

  abbrev started : List FragmentSegment
  started = if ltb 0 from then mark_start segments else segments

  abbrev ended : List FragmentSegment
  ended = if ltb to (length text) then mark_end started else started

  cut_fragment-Within :
      Within from to ranges
      → cut_fragment text (from, to) (map (byte_at text) (from ∷ (endpoints ranges ++ to ∷ [])))
        ≡ some ended
  unfolding cut_fragment
  cut_fragment-Within h =
      rw
        (
          map-snoc (byte_at text) (endpoints ranges) to,
          split_last-snoc offsets (byte_at text to),
          as_pairs-endpoints (byte_at text) ranges,
          split_segments-sliced text from to [] ranges h,
        )
        refl

  all_text-ended : Within from to ranges → all_text ended ≡ shown_text text from to
  all_text-ended h =
      all_text-finished (ltb to (length text)) started
      ∙ ap (λ t. t ++ (if ltb to (length text) then ellipsis else []))
          (all_text-started (ltb 0 from) segments
            ∙ ap (λ t. (if ltb 0 from then ellipsis else []) ++ t)
                (all_text-sliced text from to [] ranges h))
      ∙ append_assoc (if ltb 0 from then ellipsis else []) (slice text from to)
          (if ltb to (length text) then ellipsis else [])

  highlights-ended : highlights ended ≡ keep has_text (map (slice_of text) ranges)
  highlights-ended =
      highlights-finished (ltb to (length text)) started
      ∙ highlights-started (ltb 0 from) segments
      ∙ highlights-sliced text from to [] ranges

-- A fragment of a text whose occurrences are sorted ranges without overlap, the first inside the
-- text, always exists. It shows the text of the window, marked where it is cut off, and what it
-- highlights is just the part of each occurrence that lies in the window.
pub fragment-shown :
    (text : Text) (first : Range) (occurrences : List Range)
    → Ascending 0 (first ∷ occurrences)
    → first.1 ≤ length text
    → (segments : List FragmentSegment) × (fragment text (first ∷ occurrences) ≡ some segments)
      × (all_text segments
          ≡ shown_text text (window first (length text)).0 (window first (length text)).1)
      × (highlights segments
          ≡ keep has_text
              (map (slice_of text) (visible (window first (length text)) (first ∷ occurrences))))
unfolding fragment
fragment-shown text (start, end) occurrences a h =
    let shown = window (start, end) (length text) in
    let (low, high, top, size) = window_lem start end (length text) a.1 h in
    let ordered : shown.0 ≤ shown.1 = omega (arith, low, high, a.1) in
    let ranges = visible shown ((start, end) ∷ occurrences) in
    let within = visible-Within shown.0 shown.1 ((start, end) ∷ occurrences) ordered a in
    (
      ended text shown.0 shown.1 ranges,
      ap (cut_fragment text shown) (
            character_offsets-Rising len_utf8 text (shown.0 ∷ (endpoints ranges ++ shown.1 ∷ []))
              (omega arith, Within-Rising shown.0 shown.1 ranges within))
          ∙ cut_fragment-Within text shown.0 shown.1 ranges within,
      all_text-ended text shown.0 shown.1 ranges within,
      highlights-ended text shown.0 shown.1 ranges,
    )
