-- ===== src/Search/Fragment/Segments.antt =====
-- The segments that the loop of `fragment` in fragment.rs pushes, as slices of the text.
use mathlib.Core.List.{append_assoc, append-nil}
use abyss_backend.Common.{
  ℕ, Bool, true, false, List, [], ◌∷◌, ◌++◌, map, some, ◌≡◌, refl, sym, ap, ◌∙◌, inl, inr, nat_eq,
  arith, keep, if◌then◌else◌, map_option, Bool-cases,
}
use abyss_backend.Search.Text.{Text}
use abyss_backend.Search.Text.Characters.{slice, slice-append, byte_at, get_bytes-slice}
use abyss_backend.Search.Pattern.{Range}
use abyss_backend.Search.Fragment.{
  FragmentSegment, ellipsis, push_segment, split_segments, mark_start, mark_end,
}
use abyss_backend.Search.Fragment.Highlights.{Within, Within-le}

abbrev pub byte_range : Text → Range → Range
byte_range text r = (byte_at text r.0, byte_at text r.1)

-- The same segments, by character positions.
abbrev pub sliced : Text → ℕ → List FragmentSegment → ℕ → List Range → List FragmentSegment
sliced text to segments from [] = push_segment segments (slice text from to) false
sliced text to segments from ((start, end) ∷ ranges) =
    sliced text to
      (push_segment (push_segment segments (slice text from start) false) (slice text start end)
        true)
      end ranges

pub split_segments-sliced :
    (text : Text) (from to : ℕ) (segments : List FragmentSegment) (ranges : List Range)
    → Within from to ranges
    → split_segments text
        (byte_at text to)
        segments
        (byte_at text from)
        (map (byte_range text) ranges)
      ≡ some (sliced text to segments from ranges)
unfolding split_segments
split_segments-sliced text from to segments [] h =
    ap (map_option (λ t. push_segment segments t false)) (get_bytes-slice text from to h)
split_segments-sliced text from to segments ((start, end) ∷ ranges) h =
    rw (get_bytes-slice text from start h.0, get_bytes-slice text start end h.1)
      (split_segments-sliced text end to
        (push_segment (push_segment segments (slice text from start) false) (slice text start end)
          true)
        ranges h.2)

-- What the segments show, and which of it is highlighted.
abbrev pub all_text : List FragmentSegment → Text
all_text [] = []
all_text (segment ∷ segments) = segment.text ++ all_text segments

abbrev pub highlights : List FragmentSegment → List Text
highlights [] = []
highlights (segment ∷ segments) =
    let rest = highlights segments in if segment.highlighted then segment.text ∷ rest else rest

all_text-push_segment :
    (segments : List FragmentSegment) (text : Text) (highlighted : Bool)
    → all_text (push_segment segments text highlighted) ≡ all_text segments ++ text
all_text-push_segment segments [] highlighted = sym (append-nil (all_text segments))
all_text-push_segment [] (c ∷ text) highlighted = append-nil (c ∷ text)
all_text-push_segment (s ∷ segments) (c ∷ text) highlighted =
    ap (λ t. s.text ++ t) (all_text-push_segment segments (c ∷ text) highlighted)
    ∙ sym (append_assoc s.text (all_text segments) (c ∷ text))

pub all_text-sliced :
    (text : Text) (from to : ℕ) (segments : List FragmentSegment) (ranges : List Range)
    → Within from to ranges
    → all_text (sliced text to segments from ranges) ≡ all_text segments ++ slice text from to
all_text-sliced text from to segments [] h =
    all_text-push_segment segments (slice text from to) false
all_text-sliced text from to segments ((start, end) ∷ ranges) h =
    let before = slice text from start in
    let shown = slice text start end in
    let pushed = push_segment segments before false in
    all_text-sliced text end to (push_segment pushed shown true) ranges h.2
    ∙ ap (λ t. t ++ slice text end to)
        (all_text-push_segment pushed shown true
          ∙ ap (λ t. t ++ shown) (all_text-push_segment segments before false)
          ∙ append_assoc (all_text segments) before shown
          ∙ ap (λ t. all_text segments ++ t) (slice-append text from start end h.0 h.1))
    ∙ append_assoc (all_text segments) (slice text from end) (slice text end to)
    ∙ ap (λ t. all_text segments ++ t)
        (slice-append text from end to (omega (arith, h.0, h.1)) (Within-le end to ranges h.2))

abbrev pub has_text : Text → Bool
has_text [] = false
has_text (c ∷ text) = true

highlights-append :
    (segments more : List FragmentSegment)
    → highlights (segments ++ more) ≡ highlights segments ++ highlights more
highlights-append [] more = refl
highlights-append (s ∷ segments) more = elim (Bool-cases s.highlighted) [
  | inl p ↦ rw p (ap (λ t. s.text ∷ t) (highlights-append segments more))
  | inr q ↦ rw q (highlights-append segments more)
]

highlights-plain :
    (segments : List FragmentSegment) (text : Text)
    → highlights (push_segment segments text false) ≡ highlights segments
highlights-plain segments [] = refl
highlights-plain segments (c ∷ text) =
    highlights-append segments _ ∙ append-nil (highlights segments)

highlights-shown :
    (segments : List FragmentSegment) (text : Text)
    → highlights (push_segment segments text true)
      ≡ highlights segments ++ keep has_text (text ∷ [])
highlights-shown segments [] = sym (append-nil (highlights segments))
highlights-shown segments (c ∷ text) = highlights-append segments _

keep-cons :
    (t : Text) (ts : List Text)
    → keep has_text (t ∷ []) ++ keep has_text ts ≡ keep has_text (t ∷ ts)
keep-cons [] ts = refl
keep-cons (c ∷ t) ts = refl

abbrev pub slice_of : Text → Range → Text
slice_of text r = slice text r.0 r.1

pub highlights-sliced :
    (text : Text) (from to : ℕ) (segments : List FragmentSegment) (ranges : List Range)
    → highlights (sliced text to segments from ranges)
      ≡ highlights segments ++ keep has_text (map (slice_of text) ranges)
highlights-sliced text from to segments [] =
    highlights-plain segments (slice text from to) ∙ sym (append-nil (highlights segments))
highlights-sliced text from to segments ((start, end) ∷ ranges) =
    let before = slice text from start in
    let shown = slice text start end in
    highlights-sliced text end to (push_segment (push_segment segments before false) shown true)
      ranges
    ∙ ap (λ t. t ++ keep has_text (map (slice_of text) ranges))
        (highlights-shown (push_segment segments before false) shown
          ∙ ap (λ t. t ++ keep has_text (shown ∷ [])) (highlights-plain segments before))
    ∙ append_assoc (highlights segments) (keep has_text (shown ∷ []))
        (keep has_text (map (slice_of text) ranges))
    ∙ ap (λ t. highlights segments ++ t) (keep-cons shown (map (slice_of text) ranges))

-- The ellipses are plain text at the ends.
pub all_text-mark_start :
    (segments : List FragmentSegment)
    → all_text (mark_start segments) ≡ ellipsis ++ all_text segments
all_text-mark_start [] = refl
all_text-mark_start (s ∷ segments) = elim (Bool-cases s.highlighted) [
  | inl p ↦ rw p refl
  | inr q ↦ rw q refl
]

pub all_text-mark_end :
    (segments : List FragmentSegment) → all_text (mark_end segments) ≡ all_text segments ++ ellipsis
all_text-mark_end [] = refl
all_text-mark_end (s ∷ []) = elim (Bool-cases s.highlighted) [
  | inl p ↦ rw p (ap (λ t. t ++ ellipsis) (sym (append-nil s.text)))
  | inr q ↦
      rw q (append-nil (s.text ++ ellipsis) ∙ ap (λ t. t ++ ellipsis) (sym (append-nil s.text)))
]
all_text-mark_end (s ∷ next ∷ segments) =
    ap (λ t. s.text ++ t) (all_text-mark_end (next ∷ segments))
    ∙ sym (append_assoc s.text (all_text (next ∷ segments)) ellipsis)

pub highlights-mark_start :
    (segments : List FragmentSegment) → highlights (mark_start segments) ≡ highlights segments
highlights-mark_start [] = refl
highlights-mark_start (s ∷ segments) = elim (Bool-cases s.highlighted) [
  | inl p ↦ rw p (refl)
  | inr q ↦ rw q (refl)
]

pub highlights-mark_end :
    (segments : List FragmentSegment) → highlights (mark_end segments) ≡ highlights segments
highlights-mark_end [] = refl
highlights-mark_end (s ∷ []) = elim (Bool-cases s.highlighted) [
  | inl p ↦ rw p refl
  | inr q ↦ rw q refl
]
highlights-mark_end (s ∷ next ∷ segments) =
    ap (λ ts. if s.highlighted then s.text ∷ ts else ts) (highlights-mark_end (next ∷ segments))
