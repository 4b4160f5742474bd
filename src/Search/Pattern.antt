-- ===== src/Search/Pattern.antt =====
-- search/matching/fold.rs and search/matching/pattern.rs: case folding, and a folded query with
-- its trigrams and its occurrences in a text. The lowercase form of a character that is not ASCII
-- is the parameter `to_lowercase`, as the standard library's Unicode tables give it.
use abyss_backend.Common.{
  ℕ, zero, suc, ◌+◌, ◌-◌, Bool, true, false, not, ◌&&◌, ◌||◌, List, [], ◌∷◌, ◌++◌, map, Option,
  none, some, ltb, leb, ◌==◌, nat_eq, list_eq, if◌then◌else◌, length, take, drop, contains, keep,
  map_or, all, Eq,
}
use abyss_backend.Search.Text.{Text, len_utf8, len_utf16, size, starts_with, holds, get_bytes}
pub mod Offsets
pub mod Scan
pub mod Occurrences
pub mod Trigrams

-- `char::to_ascii_lowercase`
abbrev pub to_ascii_lowercase : ℕ → ℕ
to_ascii_lowercase c = if leb 65 c && leb c 90 then c + 32 else c

abbrev pub is_ascii : ℕ → Bool
is_ascii c = ltb c 128

-- `char_indices` of the matches of a nonempty pattern, left to right and without overlap, as byte
-- positions: `str::match_indices`. The first `skip` characters are inside the last match.
unfoldable pub match_indices : Text → ℕ → ℕ → Text → List ℕ
match_indices pattern skip at [] = []
match_indices pattern (suc skip) at (c ∷ text) = match_indices pattern skip (at + len_utf8 c) text
match_indices pattern zero at (c ∷ text) =
    let inside = match_indices pattern (length pattern - 1) (at + len_utf8 c) text in
    let beyond = match_indices pattern zero (at + len_utf8 c) text in
    if starts_with pattern (c ∷ text) then at ∷ inside else beyond

abbrev pub Range : Type 0
Range = ℕ × ℕ

-- The loop of `Pattern::occurrences`.
unfoldable pub scan_starts : Text → ℕ → List ℕ → ℕ → ℕ → List Range
scan_starts folded characters [] scanned_bytes scanned_characters = []
scan_starts folded characters (start ∷ starts) scanned_bytes scanned_characters =
    let at = scanned_characters + map_or 0 length (get_bytes folded scanned_bytes start) in
    (at, at + characters) ∷ scan_starts folded characters starts start at

-- `characters.windows(n)`
unfoldable pub windows : ℕ → Text → List Text
windows n [] = []
windows n (c ∷ text) =
    let rest = windows n text in
    if leb n (length (c ∷ text)) then take n (c ∷ text) ∷ rest else rest

abbrev pub trigram_characters : ℕ
trigram_characters = 3

-- The texts that are not in `seen` and not earlier in the list.
unfoldable pub distinct : List Text → List Text → List Text
distinct seen [] = []
distinct seen (t ∷ ts) =
    let old = distinct seen ts in
    let new = distinct (t ∷ seen) ts in if contains seen t then old else t ∷ new

abbrev pub quote : ℕ
quote = 34

-- `trigram.replace('"', "\"\"")`
abbrev pub double_quotes : Text → Text
double_quotes [] = []
double_quotes (c ∷ text) = if c == quote then c ∷ c ∷ double_quotes text else c ∷ double_quotes text

-- `" AND "`
abbrev pub separator : Text
separator = 32 ∷ 65 ∷ 78 ∷ 68 ∷ 32 ∷ []

-- `terms.join(" AND ")`
abbrev pub join : List Text → Text
join [] = []
join (t ∷ []) = t
join (t ∷ u ∷ ts) = t ++ (separator ++ join (u ∷ ts))

pub record Pattern : Type 0 where
  pub folded : Text
  pub characters : ℕ

-- The distinct trigrams of a folded query that hold no NUL.
unfoldable pub trigrams : Text → List Text
unfolding windows distinct
trigrams folded = distinct [] (keep (λ t. not (contains t 0)) (windows trigram_characters folded))

-- `Pattern::trigram_expression`
unfoldable pub trigram_expression : Pattern → Option Text
unfolding trigrams
trigram_expression pattern =
    let terms = map (λ t. quote ∷ (double_quotes t ++ quote ∷ [])) (trigrams pattern.folded) in
    if length terms == 0 then none else some (join terms)

-- The loop over the characters of `character_offsets`, up to one position.
pub record Walk : Type 0 where
  pub characters : Text
  pub position : ℕ
  pub offset : ℕ

unfoldable pub advance : (ℕ → ℕ) → ℕ → Text → ℕ → ℕ → Walk
advance width target [] position offset = record {
  characters = [];
  position = position;
  offset = offset;
}
advance width target (c ∷ characters) position offset =
    let next = advance width target characters (position + 1) (offset + width c) in
    if ltb position target
    then next
    else record { characters = c ∷ characters; position = position; offset = offset }

unfoldable pub walk_offsets : (ℕ → ℕ) → Walk → List ℕ → List ℕ
unfolding advance
walk_offsets width walk [] = []
walk_offsets width walk (target ∷ positions) =
    let next = advance width target walk.characters walk.position walk.offset in
    next.offset ∷ walk_offsets width next positions

-- `character_offsets`
unfoldable pub character_offsets : Text → List ℕ → (ℕ → ℕ) → List ℕ
unfolding walk_offsets
character_offsets text positions width =
    walk_offsets width (record { characters = text; position = 0; offset = 0 }) positions

-- `as_chunks::<2>`, without the remainder.
abbrev pub as_pairs : List ℕ → List Range
as_pairs [] = []
as_pairs (a ∷ []) = []
as_pairs (a ∷ b ∷ rest) = (a, b) ∷ as_pairs rest

-- `ranges.iter().flat_map(|range| [range.start, range.end])`
abbrev pub endpoints : List Range → List ℕ
endpoints [] = []
endpoints ((start, end) ∷ ranges) = start ∷ end ∷ endpoints ranges

-- `utf16_ranges`
unfoldable pub utf16_ranges : Text → List Range → List Range
unfolding character_offsets
utf16_ranges text ranges = as_pairs (character_offsets text (endpoints ranges) len_utf16)

module _ (to_lowercase : ℕ → List ℕ) where
  -- `match (lowercase.next(), lowercase.next())`
  abbrev pub only_or : ℕ → List ℕ → ℕ
  only_or character (folded ∷ []) = folded
  only_or character _ = character

  -- `fold_char`
  unfoldable pub fold_char : ℕ → ℕ
  fold_char c = if is_ascii c then to_ascii_lowercase c else only_or c (to_lowercase c)

  -- `fold`
  unfoldable pub fold : Text → Text
  unfolding fold_char
  fold text = if all is_ascii text then map to_ascii_lowercase text else map fold_char text

  -- `Pattern::new`
  unfoldable pub new : Text → Pattern
  unfolding fold
  new query = record { folded = fold query; characters = length (fold query) }

  -- `Pattern::matches`
  unfoldable pub matches : Pattern → Text → Bool
  unfolding fold
  matches pattern text = holds pattern.folded (fold text)

  -- `Pattern::occurrences`
  unfoldable pub occurrences : Pattern → Text → List Range
  unfolding fold match_indices scan_starts
  occurrences pattern text =
      let folded = fold text in
      scan_starts folded pattern.characters (match_indices pattern.folded 0 0 folded) 0 0
