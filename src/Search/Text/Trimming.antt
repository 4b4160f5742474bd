-- ===== src/Search/Text/Trimming.antt =====
-- `str::trim`, `str::replace` and `str::find`, as the search code uses them.
use abyss_backend.Common.{
  ℕ, zero, suc, ◌-◌, Bool, true, false, ◌&&◌, ◌||◌, [], ◌∷◌, Option, none, some, leb, ◌==◌, nat_eq,
  if◌then◌else◌, length, drop, map_option,
}
use abyss_backend.Search.Text.{Text, starts_with}

-- `char::is_whitespace`: the characters of the Unicode property White_Space.
abbrev pub is_whitespace : ℕ → Bool
is_whitespace c =
    (leb 9 c && leb c 13)
    || c == 32
    || c == 133
    || c == 160
    || c == 5760
    || (leb 8192 c && leb c 8202)
    || c == 8232
    || c == 8233
    || c == 8239
    || c == 8287
    || c == 12288

abbrev pub trim_start : Text → Text
trim_start [] = []
trim_start (c ∷ text) = if is_whitespace c then trim_start text else c ∷ text

abbrev cons_end : ℕ → Text → Text
cons_end c [] = if is_whitespace c then [] else c ∷ []
cons_end c (d ∷ text) = c ∷ d ∷ text

abbrev pub trim_end : Text → Text
trim_end [] = []
trim_end (c ∷ text) = cons_end c (trim_end text)

-- `str::trim`
unfoldable pub trim : Text → Text
trim text = trim_end (trim_start text)

-- `str::replace(pattern, "")` of a nonempty pattern. `skip` characters are left of a match.
unfoldable pub remove_from : Text → ℕ → Text → Text
remove_from pattern skip [] = []
remove_from pattern (suc skip) (c ∷ text) = remove_from pattern skip text
remove_from pattern zero (c ∷ text) = elim (starts_with pattern (c ∷ text)) [
  | true ↦ remove_from pattern (length pattern - 1) text
  | false ↦ c ∷ remove_from pattern zero text
]

unfoldable pub remove : Text → Text → Text
unfolding remove_from
remove pattern text = remove_from pattern zero text

-- `find` of a nonempty pattern, with `split_at` and `strip_prefix` there: the text before the first
-- match and the text behind it.
unfoldable pub split_once : Text → Text → Option (Text × Text)
split_once pattern [] = none
split_once pattern (c ∷ text) = elim (starts_with pattern (c ∷ text)) [
  | true ↦ some ([], drop (length pattern) (c ∷ text))
  | false ↦ map_option (λ (r : Text × Text). (c ∷ r.0, r.1)) (split_once pattern text)
]
