-- ===== src/Common/Sorting.antt =====
-- `slice::sort_by_key`: a stable sort.
use mathlib.Core.Path.{◌≡◌}
use mathlib.Core.Bool.{Bool, true, false}
use mathlib.Core.List.{List, [], ◌∷◌, Perm}
use mathlib.Core.List.Perm
use mathlib.Core.Logic.{inl, inr}
use abyss_backend.Common.Tests.{if◌then◌else◌, Bool-cases}
use Prim.Native.Nat.{ℕ, zero, suc}
use abyss_backend.Common.Lists.{All, All-map, take}

module _ {ℓ} {A : Type ℓ} (le : A → A → Bool) where
  -- Before the first element that is not below it: equal elements keep their order.
  abbrev pub insert_by : A → List A → List A
  insert_by x [] = x ∷ []
  insert_by x (y ∷ ys) = if le x y then x ∷ y ∷ ys else y ∷ insert_by x ys

  abbrev pub sort_by : List A → List A
  sort_by [] = []
  sort_by (x ∷ xs) = insert_by x (sort_by xs)

  pub insert_by-perm : (x : A) (ys : List A) → Perm (x ∷ ys) (insert_by x ys)
  insert_by-perm x [] = Perm.refl (x ∷ [])
  insert_by-perm x (y ∷ ys) = elim (Bool-cases (le x y)) [
    | inl p ↦ rw p (Perm.refl (x ∷ y ∷ ys))
    | inr q ↦ rw q (Perm.trans (Perm.swap y x ys) (Perm.cons y (insert_by-perm x ys)))
  ]

  pub sort_by-perm : (xs : List A) → Perm xs (sort_by xs)
  sort_by-perm [] = Perm.refl []
  sort_by-perm (x ∷ xs) = Perm.trans (Perm.cons x (sort_by-perm xs)) (insert_by-perm x (sort_by xs))

  -- Each element is below all that follow it.
  abbrev pub Sorted : List A → Type ℓ
  Sorted [] = Unit
  Sorted (x ∷ xs) = All (λ y. le x y ≡ true) xs × Sorted xs

  module _ (total : (a b : A) → le a b ≡ false → le b a ≡ true)
      (le_trans : (a b c : A) → le a b ≡ true → le b c ≡ true → le a c ≡ true) where
    All-insert_by :
        (z x : A) (ys : List A)
        → le z x ≡ true
        → All (λ y. le z y ≡ true) ys
        → All (λ y. le z y ≡ true) (insert_by x ys)
    All-insert_by z x [] h k = (h, tt)
    All-insert_by z x (y ∷ ys) h k = elim (Bool-cases (le x y)) [
      | inl p ↦ rw p (h, k)
      | inr q ↦ rw q (k.0, All-insert_by z x ys h k.1)
    ]

    insert_by-Sorted : (x : A) (ys : List A) → Sorted ys → Sorted (insert_by x ys)
    insert_by-Sorted x [] h = (tt, tt)
    insert_by-Sorted x (y ∷ ys) h = elim (Bool-cases (le x y)) [
      | inl p ↦
          rw p (
            (p, All-map (λ w. le y w ≡ true) (λ w. le x w ≡ true) ys (λ w. le_trans x y w p) h.0),
            h,
          )
      | inr q ↦ rw q (All-insert_by y x ys (total x y q) h.0, insert_by-Sorted x ys h.1)
    ]

    pub sort_by-Sorted : (xs : List A) → Sorted (sort_by xs)
    sort_by-Sorted [] = tt
    sort_by-Sorted (x ∷ xs) = insert_by-Sorted x (sort_by xs) (sort_by-Sorted xs)

module _ {ℓ κ} {A : Type ℓ} (P : A → Type κ) where
  pub All-take : (n : ℕ) (xs : List A) → All P xs → All P (take n xs)
  All-take zero xs h = tt
  All-take (suc n) [] h = tt
  All-take (suc n) (x ∷ xs) h = (h.0, All-take n xs h.1)

  module _ (le : A → A → Bool) where
    pub All-insert : (x : A) (ys : List A) → P x → All P ys → All P (insert_by le x ys)
    All-insert x [] h k = (h, tt)
    All-insert x (y ∷ ys) h k = elim (Bool-cases (le x y)) [
      | inl e ↦ rw e (h, k)
      | inr e ↦ rw e (k.0, All-insert x ys h k.1)
    ]

    pub All-sort : (xs : List A) → All P xs → All P (sort_by le xs)
    All-sort [] h = tt
    All-sort (x ∷ xs) h = All-insert x (sort_by le xs) h.0 (All-sort xs h.1)
