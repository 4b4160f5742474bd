-- ===== src/Search/Text/Slices.antt =====
-- Slices of a text by byte positions that fall between characters.
use abyss_backend.Common.{
  ℕ, zero, suc, ◌+◌, ◌-◌, ◌≤◌, [], ◌∷◌, ◌++◌, some, ◌≡◌, refl, ap, ◌∙◌, arith, and_then, map_option,
  le→ltb,
}
use abyss_backend.Search.Text.{Text, len_utf8, size, skip_bytes, take_bytes, get_bytes}

one-le-len_utf8 : (c : ℕ) → 1 ≤ len_utf8 c
one-le-len_utf8 c = ground arith

skip_bytes-step :
    (c n : ℕ) (text : Text)
    → len_utf8 c ≤ n
    → skip_bytes (c ∷ text) n ≡ skip_bytes text (n - len_utf8 c)
unfolding skip_bytes
skip_bytes-step c zero text h = absurd (omega (arith, one-le-len_utf8 c))
skip_bytes-step c (suc n) text h = rw (le→ltb (suc n) (len_utf8 c) h) refl

take_bytes-step :
    (c n : ℕ) (text : Text)
    → len_utf8 c ≤ n
    → take_bytes (c ∷ text) n ≡ map_option (λ t. c ∷ t) (take_bytes text (n - len_utf8 c))
unfolding take_bytes
take_bytes-step c zero text h = absurd (omega (arith, one-le-len_utf8 c))
take_bytes-step c (suc n) text h = rw (le→ltb (suc n) (len_utf8 c) h) refl

skip_bytes_zero : (text : Text) → skip_bytes text 0 ≡ some text
unfolding skip_bytes
skip_bytes_zero [] = refl
skip_bytes_zero (c ∷ text) = refl

take_bytes_zero : (text : Text) → take_bytes text 0 ≡ some []
unfolding take_bytes
take_bytes_zero [] = refl
take_bytes_zero (c ∷ text) = refl

skip_bytes-append :
    (before after : Text) → skip_bytes (before ++ after) (size len_utf8 before) ≡ some after
skip_bytes-append [] after = skip_bytes_zero after
skip_bytes-append (c ∷ before) after =
    skip_bytes-step c (len_utf8 c + size len_utf8 before) (before ++ after) (omega arith)
    ∙ ap (skip_bytes (before ++ after)) {x = len_utf8 c + size len_utf8 before - len_utf8 c}
        (omega arith)
    ∙ skip_bytes-append before after

take_bytes-append :
    (before after : Text) → take_bytes (before ++ after) (size len_utf8 before) ≡ some before
take_bytes-append [] after = take_bytes_zero after
take_bytes-append (c ∷ before) after =
    take_bytes-step c (len_utf8 c + size len_utf8 before) (before ++ after) (omega arith)
    ∙ ap (λ n. map_option (λ t. c ∷ t) (take_bytes (before ++ after) n))
        {x = len_utf8 c + size len_utf8 before - len_utf8 c} (omega arith)
    ∙ ap (map_option (λ t. c ∷ t)) (take_bytes-append before after)

-- The bytes between two boundaries.
pub get_bytes-append :
    (before middle after : Text)
    → get_bytes
        (before ++ (middle ++ after))
        (size len_utf8 before)
        (size len_utf8 before + size len_utf8 middle)
      ≡ some middle
unfolding get_bytes
get_bytes-append before middle after =
    rw (le→ltb (size len_utf8 before + size len_utf8 middle) (size len_utf8 before) (omega arith)) (
      ap
        (λ o. and_then o (λ rest.
          take_bytes rest (size len_utf8 before + size len_utf8 middle - size len_utf8 before)))
        (skip_bytes-append before (middle ++ after))
      ∙ ap (take_bytes (middle ++ after))
          {x = size len_utf8 before + size len_utf8 middle - size len_utf8 before} (omega arith)
      ∙ take_bytes-append middle after)
