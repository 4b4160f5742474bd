-- ===== src/Search/Text/Parsing.antt =====
-- `str::parse` of integers: the digits' value below a bound, with a sign before them or none.
use abyss_backend.Common.{
  ℕ, ◌+◌, ◌-◌, ◌*◌, Bool, ◌&&◌, [], ◌∷◌, Option, none, some, leb, ltb, ◌==◌, nat_eq, if◌then◌else◌,
  ℤ, pos, negsuc, map_option,
}
use abyss_backend.Search.Text.{Text}

abbrev is_digit : ℕ → Bool
is_digit c = leb 48 c && leb c 57

-- The number of the digits, with the value before them.
parse_digits : ℕ → ℕ → Text → Option ℕ
parse_digits bound value [] = some value
parse_digits bound value (c ∷ text) =
    let next = value * 10 + (c - 48) in
    let rest = parse_digits bound next text in if is_digit c && ltb next bound then rest else none

-- An unsigned type, of the numbers below the bound.
unfoldable pub parse_unsigned : ℕ → Text → Option ℕ
unfolding parse_digits
parse_unsigned bound [] = none
parse_unsigned bound (c ∷ []) = if is_digit c then parse_digits bound 0 (c ∷ []) else none
parse_unsigned bound (c ∷ d ∷ text) =
    parse_digits bound 0 (if c == b'+' then d ∷ text else c ∷ d ∷ text)

abbrev negated : ℕ → ℤ
negated n = if n == 0 then pos 0 else negsuc (n - 1)

-- A signed type, of the numbers from minus the bound to below it.
unfoldable pub parse_signed : ℕ → Text → Option ℤ
unfolding parse_unsigned parse_digits
parse_signed bound [] = none
parse_signed bound (c ∷ []) = map_option pos (parse_unsigned bound (c ∷ []))
parse_signed bound (c ∷ d ∷ text) =
    if c == b'-'
    then map_option negated (parse_digits (bound + 1) 0 (d ∷ text))
    else map_option pos (parse_unsigned bound (c ∷ d ∷ text))
