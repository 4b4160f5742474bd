-- ===== src/Search/Tests.antt =====
-- The search code on small texts, and its theorems on them.
use abyss_backend.Common.{
  ℕ, Bool, true, false, not, String, List, [], ◌∷◌, map, Option, none, some, ◌≡◌, refl, arith,
  length, keep, if◌then◌else◌, All, contains, lookup, ◌==◌, nat_eq, string_eq, list_eq,
}
use abyss_backend.Search.Text.{Text, holds, skip_bytes, take_bytes, get_bytes}
use abyss_backend.Search.Pattern.{
  match_indices, scan_starts, windows, distinct, trigrams, trigram_expression, advance,
  walk_offsets, character_offsets, utf16_ranges, fold_char, fold, new, matches, occurrences,
}
use abyss_backend.Search.Pattern.Offsets.{Ascending, utf16_ranges-Ascending}
use abyss_backend.Search.Pattern.Scan.{StandsAt, Covers}
use abyss_backend.Search.Pattern.Occurrences.{
  IsMatch, length-fold, occurrences-matching, occurrences-Covers,
}
use abyss_backend.Search.Pattern.Trigrams.{trigrams-holds}
use abyss_backend.Search.Fragment.{
  FragmentSegment, window, visible, split_segments, cut_fragment, fragment,
}
use abyss_backend.Search.Fragment.Segments.{all_text, highlights, has_text, slice_of}
use abyss_backend.Search.Fragment.Shown.{shown_text, fragment-shown}
use abyss_backend.Search.Pieces.{name, text, as_str, piece, pieces_from, pieces}
use abyss_backend.Search.InSession.{InSessionHit, from_hits}
use abyss_backend.Search.InSession.Laws.{text_entries, lookup-from_hits}
use abyss_backend.Search.Ranking.{PieceHit, EventHits, collect_texts, fragment_texts}

-- The Kelvin sign and `Ä` have a lowercase form of one character, `İ` one of two.
abbrev lowercase : ℕ → List ℕ
lowercase c =
    if c == 8490
    then 107 ∷ []
    else if c == 196
    then 228 ∷ []
    else if c == 304
    then 105 ∷ 775 ∷ []
    else c ∷ []

-- "KİÄ" with a Kelvin sign
fold_mixed : fold lowercase (8490 ∷ 304 ∷ 196 ∷ 65 ∷ []) ≡ 107 ∷ 304 ∷ 228 ∷ 97 ∷ []
unfolding fold fold_char
fold_mixed = refl

-- "Kok" begins with a Kelvin sign, of three bytes.
abbrev kok : Text
kok = 8490 ∷ 111 ∷ 107 ∷ []

occurrences-kelvin : occurrences lowercase (new lowercase (107 ∷ [])) kok ≡ (0, 1) ∷ (2, 3) ∷ []
unfolding occurrences new fold fold_char match_indices scan_starts get_bytes skip_bytes take_bytes
occurrences-kelvin = refl

-- "aA" in "aaaAa"
occurrences_apart :
    occurrences lowercase (new lowercase (97 ∷ 65 ∷ [])) (97 ∷ 97 ∷ 97 ∷ 65 ∷ 97 ∷ [])
    ≡ (0, 2) ∷ (2, 4) ∷ []
unfolding occurrences new fold fold_char match_indices scan_starts get_bytes skip_bytes take_bytes
occurrences_apart = refl

-- `a"b` is `"a""b"`.
trigram_expression-quotes :
    trigram_expression (new lowercase (97 ∷ 34 ∷ 98 ∷ [])) ≡ some (34 ∷ 97 ∷ 34 ∷ 34 ∷ 98 ∷ 34 ∷ [])
unfolding trigram_expression new fold fold_char trigrams windows distinct
trigram_expression-quotes = refl

-- A character beyond the basic plane has two units.
utf16_ranges-astral : utf16_ranges (128512 ∷ 32 ∷ 110 ∷ []) ((2, 3) ∷ []) ≡ (3, 4) ∷ []
unfolding utf16_ranges character_offsets walk_offsets advance
utf16_ranges-astral = refl

fragment-short :
    fragment (97 ∷ 98 ∷ 99 ∷ []) ((1, 2) ∷ [])
    ≡ some (
        record { text = 97 ∷ []; highlighted = false }
        ∷ record { text = 98 ∷ []; highlighted = true }
        ∷ record { text = 99 ∷ []; highlighted = false }
        ∷ [])
unfolding fragment window visible character_offsets walk_offsets advance cut_fragment split_segments
    get_bytes skip_bytes take_bytes
fragment-short = refl

utf16_ranges-Ascending_example :
    utf16_ranges (128512 ∷ 110 ∷ []) ((0, 1) ∷ (1, 2) ∷ []) ≡ (0, 2) ∷ (2, 3) ∷ []
utf16_ranges-Ascending_example =
    utf16_ranges-Ascending (128512 ∷ 110 ∷ []) ((0, 1) ∷ (1, 2) ∷ [])
      (omega arith, omega arith, (omega arith, omega arith, tt))

length-fold-kok : length (fold lowercase kok) ≡ 3
length-fold-kok = length-fold lowercase kok

occurrences-matching_example :
    Ascending 0 (occurrences lowercase (new lowercase (107 ∷ [])) kok)
    × All
        (IsMatch (fold lowercase (107 ∷ [])) (fold lowercase kok))
        (occurrences lowercase (new lowercase (107 ∷ [])) kok)
    × (matches lowercase (new lowercase (107 ∷ [])) kok
        ≡ not (length (occurrences lowercase (new lowercase (107 ∷ [])) kok) == 0))
occurrences-matching_example = occurrences-matching lowercase (107 ∷ []) kok (omega arith)

StandsAt-two : StandsAt (fold lowercase (107 ∷ [])) (fold lowercase kok) 2
unfolding fold fold_char
StandsAt-two = refl

occurrences-Covers_example : Covers (occurrences lowercase (new lowercase (107 ∷ [])) kok) 2
occurrences-Covers_example =
    occurrences-Covers lowercase (107 ∷ []) kok 2 (omega arith) StandsAt-two

matches-kok : matches lowercase (new lowercase kok) (32 ∷ 8490 ∷ 79 ∷ 75 ∷ []) ≡ true
unfolding matches new fold fold_char
matches-kok = refl

trigrams-holds_example :
    All
      (λ t. holds t (fold lowercase (32 ∷ 8490 ∷ 79 ∷ 75 ∷ [])) ≡ true)
      (trigrams (fold lowercase kok))
trigrams-holds_example = trigrams-holds lowercase kok (32 ∷ 8490 ∷ 79 ∷ 75 ∷ []) matches-kok

fragment-shown_example :
    (segments : List FragmentSegment) × (fragment kok ((0, 1) ∷ (2, 3) ∷ []) ≡ some segments)
    × (all_text segments ≡ shown_text kok (window (0, 1) 3).0 (window (0, 1) 3).1)
    × (highlights segments
        ≡ keep has_text (map (slice_of kok) (visible (window (0, 1) 3) ((0, 1) ∷ (2, 3) ∷ []))))
fragment-shown_example =
    fragment-shown kok (0, 1) ((2, 3) ∷ [])
      (omega arith, omega arith, (omega arith, omega arith, tt)) (omega arith)

-- An entry is its name and its text.
abbrev get_str : Text × Text → String → Option Text
get_str (n, t) field = if field == "name" then some n else if field == "text" then some t else none

pieces-entries :
    pieces get_str (some (([], 97 ∷ []) ∷ (98 ∷ [], 99 ∷ []) ∷ []))
    ≡ record { entry_index = 0; field = text; content = 97 ∷ [] }
      ∷ record { entry_index = 1; field = name; content = 98 ∷ [] }
      ∷ record { entry_index = 1; field = text; content = 99 ∷ [] }
      ∷ []
unfolding pieces pieces_from piece as_str
pieces-entries = refl

abbrev hit : ℕ → InSessionHit
hit text_id = record {
  event_pk = 1;
  entry_index = 0;
  field = text;
  new = true;
  text_id = text_id;
  segment = none;
}

lookup-from_hits_example :
    lookup 3 (
      text_entries
        (from_hits [] (hit 12 ∷ hit 3 ∷ hit 12 ∷ []) ((3, (0, 6) ∷ []) ∷ (99, []) ∷ [])).texts)
    ≡ (if contains
          (map
            (λ (h : InSessionHit). h.text_id)
            (from_hits [] (hit 12 ∷ hit 3 ∷ hit 12 ∷ []) ((3, (0, 6) ∷ []) ∷ (99, []) ∷ [])).hits)
          3
        then some ((0, 6) ∷ [])
        else none)
lookup-from_hits_example =
    lookup-from_hits [] (hit 12 ∷ hit 3 ∷ hit 12 ∷ []) ((3, (0, 6) ∷ []) ∷ (99, []) ∷ []) 3

abbrev piece_of : Bool → ℕ → ℕ → PieceHit
piece_of fresh_hit entry text_id = record {
  new = fresh_hit;
  entry_index = entry;
  field = text;
  text_id = text_id;
}

abbrev event_of : List PieceHit → EventHits
event_of hits = record { session_pk = 1; session_id = []; observed_at = 5; hits = hits }

abbrev some_hits : List PieceHit
some_hits = piece_of false 0 7 ∷ piece_of true 2 8 ∷ piece_of true 1 8 ∷ piece_of true 3 9 ∷ []

fragment_texts-some_hits : fragment_texts (event_of some_hits) ≡ 8 ∷ 9 ∷ []
unfolding fragment_texts collect_texts
fragment_texts-some_hits = refl

abbrev some_events : List (ℕ × EventHits)
some_events = (1, event_of (piece_of false 0 7 ∷ [])) ∷ (2, event_of some_hits) ∷ []
