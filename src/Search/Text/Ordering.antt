-- ===== src/Search/Text/Ordering.antt =====
-- The order of texts.
use abyss_backend.Common.{
  Bool, true, false, [], ◌∷◌, ◌≡◌, refl, arith, ltb, ◌==◌, nat_eq, if◌then◌else◌,
}
use abyss_backend.Search.Text.{Text}

-- `Ord` of texts: by scalar values, as the bytes of UTF-8 are ordered.
unfoldable pub text_le : Text → Text → Bool
text_le [] ys = true
text_le (x ∷ xs) [] = false
text_le (x ∷ xs) (y ∷ ys) = let rest = text_le xs ys in if x == y then rest else ltb x y

pub text_le_total : (xs ys : Text) → text_le xs ys ≡ false → text_le ys xs ≡ true
unfolding text_le
text_le_total [] ys h = cc
text_le_total (x ∷ xs) [] h = refl
text_le_total (x ∷ xs) (y ∷ ys) h = ground (arith, text_le_total xs ys)

pub text_le_trans :
    (xs ys zs : Text) → text_le xs ys ≡ true → text_le ys zs ≡ true → text_le xs zs ≡ true
unfolding text_le
text_le_trans [] ys zs h k = refl
text_le_trans (x ∷ xs) [] zs h k = cc
text_le_trans (x ∷ xs) (y ∷ ys) [] h k = cc
text_le_trans (x ∷ xs) (y ∷ ys) (z ∷ zs) h k = ground (arith, text_le_trans xs ys zs)

pub text_le_antisymm : (xs ys : Text) → text_le xs ys ≡ true → text_le ys xs ≡ true → xs ≡ ys
unfolding text_le
text_le_antisymm [] [] h k = refl
text_le_antisymm [] (y ∷ ys) h k = cc
text_le_antisymm (x ∷ xs) [] h k = cc
text_le_antisymm (x ∷ xs) (y ∷ ys) h k = ground (arith, text_le_antisymm xs ys)
