-- ===== src/Common/Updates.antt =====
-- `xs[index] = change(xs[index])`, where the list has the index.
use Prim.Native.Nat.{ℕ}
use mathlib.Core.Path.{◌≡◌, refl, ap, sym, ◌∙◌}
use mathlib.Core.Logic.{◌≢◌, ◌⊎◌, inl, inr}
use mathlib.Core.List.{List, [], ◌∷◌, ◌++◌}
use mathlib.Core.Option.{none, some, some-injective}
use abyss_backend.Common.Tests.{nat_eq, ==-cases, Option-cases}
use abyss_backend.Common.Lists.{length, get_elem?, set, length-set}
use abyss_backend.Common.Indices.{
  get_elem?-set_self, get_elem?-set_ne, lt-of_get_elem?, get_elem?-append_end,
}

module _ {ℓ} {A : Type ℓ} where
  abbrev pub update : (A → A) → ℕ → List A → List A
  update change index xs = elim (get_elem? xs index) [
    | none ↦ xs
    | some x ↦ set xs index (change x)
  ]

  pub length-update :
      (change : A → A) (i : ℕ) (xs : List A) → length (update change i xs) ≡ length xs
  length-update change i xs = elim (Option-cases (get_elem? xs i)) [
    | inl e ↦ rw (e, update)
    | inr (x, e) ↦ rw (e, update) (length-set xs i (change x))
  ]

  pub get_elem?-update_self :
      (change : A → A) (i : ℕ) (xs : List A) (a : A)
      → get_elem? xs i ≡ some a
      → get_elem? (update change i xs) i ≡ some (change a)
  get_elem?-update_self change i xs a e =
      rw (e, update) (get_elem?-set_self xs i (change a) (lt-of_get_elem? xs i e))

  pub get_elem?-update_ne :
      (change : A → A) (i j : ℕ) (xs : List A)
      → i ≢ j
      → get_elem? (update change i xs) j ≡ get_elem? xs j
  get_elem?-update_ne change i j xs h = elim (Option-cases (get_elem? xs i)) [
    | inl e ↦ rw (e, update)
    | inr (x, e) ↦ rw (e, update) (get_elem?-set_ne xs i j (change x) h)
  ]

  -- What stands in an updated list.
  pub get_elem?-of_update :
      (change : A → A) (i j : ℕ) (xs : List A) (a b : A)
      → get_elem? xs i ≡ some a
      → get_elem? (update change i xs) j ≡ some b
      → ((j ≡ i) × (b ≡ change a)) ⊎ ((j ≢ i) × (get_elem? xs j ≡ some b))
  get_elem?-of_update change i j xs a b e h = elim (==-cases j i) [
    | inl (_, q) ↦ inl (
      q,
      some-injective b (change a)
          (sym h ∙ ap (get_elem? (update change i xs)) q ∙ get_elem?-update_self change i xs a e),
    )
    | inr (_, q) ↦ inr (q, sym (get_elem?-update_ne change i j xs (λ p. q (sym p))) ∙ h)
  ]

  set-append_end : (xs : List A) (a b : A) → set (xs ++ a ∷ []) (length xs) b ≡ xs ++ b ∷ []
  set-append_end [] a b = refl
  set-append_end (x ∷ xs) a b = ap (λ ys. x ∷ ys) (set-append_end xs a b)

  pub update-append_end :
      (change : A → A) (xs : List A) (a : A)
      → update change (length xs) (xs ++ a ∷ []) ≡ xs ++ change a ∷ []
  update-append_end change xs a =
      rw (get_elem?-append_end xs a (length xs) refl, update) (set-append_end xs a (change a))
