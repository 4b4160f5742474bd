-- ===== src/Usage/Preview.antt =====
-- Previews of a conversation: usage/preview.rs. An entry is what serde_json reads of it: its text,
-- where it is an object that has one.
use abyss_backend.Common.{
  ℕ, zero, suc, ◌+◌, ◌-◌, ◌*◌, ◌^◌, min, max, Bool, true, false, not, ◌&&◌, ◌||◌, String, List, [],
  ◌∷◌, map, Option, none, some, ltb, leb, ◌==◌, nat_eq, if◌then◌else◌, length, take, drop, any,
  keep, sort_by, unwrap_or, map_option, Result, ok, err, ◌>>=◌, traverse,
}
use abyss_backend.Errors.{AppError, validation}
use abyss_backend.Search.Text.{Text, len_utf8, len_utf16, size}
use abyss_backend.Search.Text.Trimming.{trim}
use abyss_backend.Search.Text.Parsing.{parse_unsigned}
pub mod Merging
pub mod Counts
pub mod Cuts

abbrev pub usize_bound : ℕ
usize_bound = 2 ^ 64

pub data Run : Type 0 where
  span : ℕ → ℕ → Run
  last : ℕ → Run

-- A half-open range of indices.
abbrev pub Range : Type 0
Range = ℕ × ℕ

pub record Window : Type 0 where
  pub runs : Option (List Run)
  pub text_preview : Option ℕ

pub record PreviewQuery : Type 0 where
  pub entries : Option Text
  pub text_preview : Option ℕ

unfoldable pub parse_usize : Text → Option ℕ
unfolding parse_unsigned
parse_usize text = parse_unsigned usize_bound text

-- `str::split_once` at a character.
unfoldable pub split_at_char : ℕ → Text → Option (Text × Text)
split_at_char at [] = none
split_at_char at (c ∷ text) =
    let rest = map_option (λ (r : Text × Text). (c ∷ r.0, r.1)) (split_at_char at text) in
    if c == at then some ([], text) else rest

-- `str::split` at a character: what stands before its first place, and the pieces behind it.
split_pieces : ℕ → Text → Text × List Text
split_pieces at [] = ([], [])
split_pieces at (c ∷ text) =
    let (piece, pieces) = split_pieces at text in
    if c == at then ([], piece ∷ pieces) else (c ∷ piece, pieces)

unfoldable pub split : ℕ → Text → List Text
unfolding split_pieces
split at text = let (piece, pieces) = split_pieces at text in piece ∷ pieces

-- `invalid` is the message about a run.
module _ (invalid : Text → String) where
  unfoldable pub index : Text → Text → Result AppError ℕ
  unfolding parse_usize
  index run text = elim (parse_usize text) [ none ↦ err (validation (invalid run)) | some n ↦ ok n ]

  unfoldable pub span_of : Text → ℕ → ℕ → Result AppError Run
  span_of run from to = if ltb to from then err (validation (invalid run)) else ok (span from to)

  span_ends : Text → Option (Text × Text) → Result AppError Run
  unfolding index span_of
  span_ends run none = index run run >>= λ at. span_of run at at
  span_ends run (some (from, to)) =
      index run from >>= λ from_index. index run to >>= λ to_index. span_of run from_index to_index

  unfoldable pub parse_run : Text → Result AppError Run
  unfolding span_ends split_at_char
  parse_run [] = span_ends [] none
  parse_run (c ∷ text) =
      if c == b'-'
      then (index (c ∷ text) text >>= λ count. ok (last count))
      else span_ends (c ∷ text) (split_at_char b'-' (c ∷ text))

  unfoldable pub parse_runs : Option Text → Result AppError (Option (List Run))
  unfolding parse_run split
  parse_runs none = ok none
  parse_runs (some entries) =
      traverse (λ run. parse_run (trim run)) (split b',' entries) >>= λ runs. ok (some runs)

  -- `Window::parse`
  unfoldable pub parse : PreviewQuery → Result AppError Window
  unfolding parse_runs
  parse query = parse_runs query.entries >>= λ runs.
      ok (record { runs = runs; text_preview = query.text_preview })

-- The range of a run over `total` entries.
unfoldable pub run_range : ℕ → Run → Range
run_range total (span from to) = (min from total, min (min (to + 1) (usize_bound - 1)) total)
run_range total (last count) = (total - count, total)

abbrev pub by_start : Range → Range → Bool
by_start a b = leb a.0 b.0

abbrev pub is_nonempty : Range → Bool
is_nonempty r = ltb r.0 r.1

-- The loop over the sorted ranges, where `(start, end)` is the last merged one.
unfoldable pub merge_from : ℕ → ℕ → List Range → List Range
merge_from start end [] = (start, end) ∷ []
merge_from start end ((from, to) ∷ ranges) =
    let joined = merge_from start (max end to) ranges in
    let apart = (start, end) ∷ merge_from from to ranges in if leb from end then joined else apart

unfoldable pub merge : List Range → List Range
unfolding merge_from
merge [] = []
merge ((start, end) ∷ ranges) = merge_from start end ranges

unfoldable pub run_ranges : ℕ → List Run → List Range
unfolding run_range merge
run_ranges total runs = merge (sort_by by_start (keep is_nonempty (map (run_range total) runs)))

unfoldable pub ranges_of : Option (List Run) → ℕ → List Range
unfolding run_ranges
ranges_of none total = (0, total) ∷ []
ranges_of (some runs) total = run_ranges total runs

-- `Window::ranges`
unfoldable pub ranges : Window → ℕ → List Range
unfolding ranges_of
ranges window total = ranges_of window.runs total

-- The characters before the one at which the units pass the limit.
unfoldable pub cut_units : ℕ → ℕ → Text → Text
cut_units limit units [] = []
cut_units limit units (c ∷ text) =
    let rest = cut_units limit (units + len_utf16 c) text in
    if ltb limit (units + len_utf16 c) then [] else c ∷ rest

abbrev pub Entry : Type 0
Entry = Option Text

-- What `cut` makes of an entry: the new text with the length of the whole one, none where the entry
-- stays as it is.
unfoldable pub cut : Entry → Option ℕ → Option (Text × ℕ)
unfolding cut_units
cut entry none = none
cut entry (some limit) =
    let text = unwrap_or entry [] in
    if leb (size len_utf16 text) limit
    then none
    else some (cut_units limit 0 text, size len_utf16 text)

pub record Chunk : Type 0 where
  pub from : ℕ
  pub entries : List (Entry × Option (Text × ℕ))

pub record ConversationPreview : Type 0 where
  pub entries_total : ℕ
  pub chunks : List Chunk
  pub omitted_entries : ℕ
  pub omitted_bytes : ℕ

abbrev pub range_contains : ℕ → Range → Bool
range_contains index r = leb r.0 index && ltb index r.1

abbrev pub is_shown : List Range → ℕ → Bool
is_shown shown index = any (range_contains index) shown

-- `map(Range::len).sum()`
unfoldable pub total_length : List Range → ℕ
total_length [] = 0
total_length (r ∷ ranges) = r.1 - r.0 + total_length ranges

-- The bytes of the texts that no range holds, from an index on.
unfoldable pub bytes_omitted : List Range → ℕ → List Entry → ℕ
bytes_omitted shown index [] = 0
bytes_omitted shown index (entry ∷ entries) =
    (if is_shown shown index then 0 else size len_utf8 (unwrap_or entry []))
    + bytes_omitted shown (suc index) entries

unfoldable pub chunk : Option ℕ → List Entry → Range → Chunk
unfolding cut
chunk limit entries r = record {
  from = r.0;
  entries = map (λ entry. (entry, cut entry limit)) (take (r.1 - r.0) (drop r.0 entries));
}

unfoldable pub preview : List Entry → Window → ConversationPreview
unfolding ranges total_length bytes_omitted chunk
preview entries window =
    let shown = ranges window (length entries) in
    record {
      entries_total = length entries;
      chunks = map (chunk window.text_preview entries) shown;
      omitted_entries = length entries - total_length shown;
      omitted_bytes = bytes_omitted shown 0 entries;
    }
