-- ===== src/Search/Text.antt =====
-- What the search code uses of `str`. A text is the list of its characters, and a character is its
-- scalar value; byte positions follow from the widths of UTF-8.
use Prim.Native.Char.{code}
use Prim.Native.String.{String}
use abyss_backend.Common.{
  ℕ, zero, suc, ◌+◌, ◌-◌, Bool, true, false, ◌&&◌, ◌||◌, List, [], ◌∷◌, Option, none, some, ltb,
  ◌==◌, nat_eq, if◌then◌else◌, and_then, map_option,
}
pub mod Slices
pub mod Trimming
pub mod Parsing
pub mod Ordering
pub mod Characters

abbrev pub Text : Type 0
Text = List ℕ

-- The characters of a literal.
abbrev pub codes : String → Text
codes String.[] = []
codes (String.◌∷◌ c s) = code c ∷ codes s

-- `char::len_utf8`
abbrev pub len_utf8 : ℕ → ℕ
len_utf8 c = if ltb c 128 then 1 else if ltb c 2048 then 2 else if ltb c 65536 then 3 else 4

-- `char::len_utf16`
abbrev pub len_utf16 : ℕ → ℕ
len_utf16 c = if ltb c 65536 then 1 else 2

-- The length of a text in the units that `width` gives each character.
abbrev pub size : (ℕ → ℕ) → Text → ℕ
size width [] = 0
size width (c ∷ text) = width c + size width text

-- `str::starts_with`
abbrev pub starts_with : Text → Text → Bool
starts_with [] text = true
starts_with (p ∷ pattern) [] = false
starts_with (p ∷ pattern) (c ∷ text) = p == c && starts_with pattern text

-- `str::contains`
abbrev pub holds : Text → Text → Bool
holds pattern [] = starts_with pattern []
holds pattern (c ∷ text) = starts_with pattern (c ∷ text) || holds pattern text

-- What is left behind the first `n` bytes, and those bytes: none off the end or inside a character.
unfoldable pub skip_bytes : Text → ℕ → Option Text
skip_bytes text zero = some text
skip_bytes [] (suc n) = none
skip_bytes (c ∷ text) (suc n) =
    let rest = skip_bytes text (suc n - len_utf8 c) in
    if ltb (suc n) (len_utf8 c) then none else rest

unfoldable pub take_bytes : Text → ℕ → Option Text
take_bytes text zero = some []
take_bytes [] (suc n) = none
take_bytes (c ∷ text) (suc n) =
    let rest = take_bytes text (suc n - len_utf8 c) in
    if ltb (suc n) (len_utf8 c) then none else map_option (λ t. c ∷ t) rest

-- `str::get` of a range of bytes
unfoldable pub get_bytes : Text → ℕ → ℕ → Option Text
unfolding skip_bytes take_bytes
get_bytes text start end =
    if ltb end start
    then none
    else and_then (skip_bytes text start) (λ rest. take_bytes rest (end - start))
