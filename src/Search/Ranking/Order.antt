-- ===== src/Search/Ranking/Order.antt =====
-- The order of the events of a session (search/matching/ranking.rs): those that pass a test first,
-- and among equals by an order of their own.
use mathlib.Core.List.{Perm, perm_middle}
use mathlib.Core.List.Perm
use abyss_backend.Common.{
  ℕ, Bool, true, false, not, ◌&&◌, ◌||◌, List, [], ◌∷◌, ◌++◌, ◌≡◌, refl, inl, inr, nat_eq,
  Bool-cases, arith, if◌then◌else◌, keep, All, All-append, Sorted,
}
use abyss_backend.Search.Ranking.{EventHits, event_le, event_has_new}

module _ {ℓ} {A : Type ℓ} (p : A → Bool) (le : A → A → Bool) where
  -- What passes is below what does not, and otherwise `le` decides.
  abbrev pub first_le : A → A → Bool
  first_le a b = if p a then not (p b) || le a b else not (p b) && le a b

  abbrev pub parted : List A → List A
  parted xs = keep p xs ++ keep (λ x. not (p x)) xs

  pub parted-perm : (xs : List A) → Perm xs (parted xs)
  parted-perm [] = Perm.nil
  parted-perm (x ∷ xs) = elim (Bool-cases (p x)) [
    | inl e ↦ rw e (Perm.cons x (parted-perm xs))
    | inr e ↦
        rw e (Perm.trans (Perm.cons x (parted-perm xs)) (Perm.symm (perm_middle (keep p xs) _)))
  ]

  passed_below :
      (x : A) (ys : List A)
      → p x ≡ true
      → All (λ y. le x y ≡ true) ys
      → All (λ y. first_le x y ≡ true) (keep p ys)
  passed_below x [] e h = tt
  passed_below x (y ∷ ys) e h = elim (Bool-cases (p y)) [
    | inl f ↦ rw f (rw (e, f) (h.0), passed_below x ys e h.1)
    | inr f ↦ rw f (passed_below x ys e h.1)
  ]

  others_below :
      (x : A) (ys : List A)
      → p x ≡ false
      → All (λ y. le x y ≡ true) ys
      → All (λ y. first_le x y ≡ true) (keep (λ y. not (p y)) ys)
  others_below x [] e h = tt
  others_below x (y ∷ ys) e h = elim (Bool-cases (p y)) [
    | inl f ↦ rw f (others_below x ys e h.1)
    | inr f ↦ rw f (rw (e, f) (h.0), others_below x ys e h.1)
  ]

  -- What passes is below all that do not.
  between :
      (x : A) (ys : List A) → p x ≡ true → All (λ y. first_le x y ≡ true) (keep (λ y. not (p y)) ys)
  between x [] e = tt
  between x (y ∷ ys) e = elim (Bool-cases (p y)) [
    | inl f ↦ rw f (between x ys e)
    | inr f ↦ rw f (rw (e, f) refl, between x ys e)
  ]

  others-Sorted : (xs : List A) → Sorted le xs → Sorted first_le (keep (λ x. not (p x)) xs)
  others-Sorted [] h = tt
  others-Sorted (x ∷ xs) h = elim (Bool-cases (p x)) [
    | inl e ↦ rw e (others-Sorted xs h.1)
    | inr e ↦ rw e (others_below x xs e h.0, others-Sorted xs h.1)
  ]

  before-Sorted :
      (xs zs : List A)
      → Sorted le xs
      → Sorted le zs
      → Sorted first_le (keep p xs ++ keep (λ z. not (p z)) zs)
  before-Sorted [] zs h k = others-Sorted zs k
  before-Sorted (x ∷ xs) zs h k = elim (Bool-cases (p x)) [
    | inl e ↦ rw e (
      All-append (λ y. first_le x y ≡ true) (keep p xs) (keep (λ z. not (p z)) zs)
          (passed_below x xs e h.0) (between x zs e),
      before-Sorted xs zs h.1 k,
    )
    | inr e ↦ rw e (before-Sorted xs zs h.1 k)
  ]

  pub parted-Sorted : (xs : List A) → Sorted le xs → Sorted first_le (parted xs)
  parted-Sorted xs h = before-Sorted xs xs h h

pub event_le_total : (a b : ℕ × EventHits) → event_le a b ≡ false → event_le b a ≡ true
event_le_total (i, a) (j, b) h = ground arith

pub event_le_trans :
    (a b c : ℕ × EventHits) → event_le a b ≡ true → event_le b c ≡ true → event_le a c ≡ true
event_le_trans (i, a) (j, b) (k, c) h g = ground arith

-- An event with a new hit comes before one without, and otherwise the earlier one first, by key at
-- one time.
abbrev pub rank_le : ℕ × EventHits → ℕ × EventHits → Bool
rank_le = first_le event_has_new event_le
