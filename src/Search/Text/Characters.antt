-- ===== src/Search/Text/Characters.antt =====
-- Slices of a text by character positions, and the byte positions that they have.
use mathlib.Core.List.{append_assoc}
use abyss_backend.Common.{
  ℕ, zero, suc, ◌+◌, ◌≤◌, [], ◌∷◌, ◌++◌, some, ◌≡◌, refl, sym, ap, ◌∙◌, arith, take, drop,
}
use abyss_backend.Search.Text.{Text, len_utf8, size, get_bytes}
use abyss_backend.Search.Text.Slices.{get_bytes-append}

-- The characters from `a` up to `b`.
abbrev pub slice : Text → ℕ → ℕ → Text
slice text a b = drop a (take b text)

pub take-drop : (n : ℕ) (xs : Text) → xs ≡ take n xs ++ drop n xs
take-drop zero xs = refl
take-drop (suc n) [] = refl
take-drop (suc n) (x ∷ xs) = ap (λ t. x ∷ t) (take-drop n xs)

take-slice : (text : Text) (a b : ℕ) → a ≤ b → take b text ≡ take a text ++ slice text a b
take-slice text zero b h = refl
take-slice text (suc a) zero h = absurd (omega arith)
take-slice [] (suc a) (suc b) h = refl
take-slice (c ∷ text) (suc a) (suc b) h = ap (λ t. c ∷ t) (take-slice text a b (omega arith))

pub slice-append :
    (text : Text) (a b c : ℕ) → a ≤ b → b ≤ c → slice text a b ++ slice text b c ≡ slice text a c
slice-append text zero b c h k = sym (take-slice text b c k)
slice-append text (suc a) zero c h k = absurd (omega arith)
slice-append text (suc a) (suc b) zero h k = absurd (omega arith)
slice-append [] (suc a) (suc b) (suc c) h k = refl
slice-append (x ∷ text) (suc a) (suc b) (suc c) h k =
    slice-append text a b c (omega arith) (omega arith)

pub size-append :
    (width : ℕ → ℕ) (xs ys : Text) → size width (xs ++ ys) ≡ size width xs + size width ys
size-append width [] ys = omega arith
size-append width (x ∷ xs) ys = omega (arith, size-append width xs ys)

-- The byte position of a character position.
abbrev pub byte_at : Text → ℕ → ℕ
byte_at text p = size len_utf8 (take p text)

pub get_bytes-slice :
    (text : Text) (a b : ℕ)
    → a ≤ b
    → get_bytes text (byte_at text a) (byte_at text b) ≡ some (slice text a b)
get_bytes-slice text a b h =
    let whole : text ≡ take a text ++ (slice text a b ++ drop b text) =
      take-drop b text
      ∙ ap (λ t. t ++ drop b text) (take-slice text a b h)
      ∙ append_assoc (take a text) (slice text a b) (drop b text) in
    let end : byte_at text b ≡ byte_at text a + size len_utf8 (slice text a b) =
      ap (size len_utf8) (take-slice text a b h)
      ∙ size-append len_utf8 (take a text) (slice text a b) in
    ap (λ t. get_bytes t (byte_at text a) (byte_at text b)) whole
    ∙ ap (λ n. get_bytes (take a text ++ (slice text a b ++ drop b text)) (byte_at text a) n) end
    ∙ get_bytes-append (take a text) (slice text a b) (drop b text)
