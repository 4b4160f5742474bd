-- ===== src/Common/Indices.antt =====
-- Reads and writes of a list at an index.
use Prim.Native.Nat.{ℕ, zero, suc, ◌≤◌, ◌<◌}
use mathlib.Core.Path.{◌≡◌, refl, ap, subst, ◌∙◌}
use mathlib.Core.Logic.{◌≢◌, ◌⊎◌, inl, inr}
use mathlib.Core.List.{List, [], ◌∷◌, ◌++◌}
use mathlib.Core.Option.{none, some, some-injective}
use native.Mathlib.Omega.{arith}
use abyss_backend.Common.Lists.{length, get_elem?, get_or, set, All}

module _ {ℓ} {A : Type ℓ} where
  pub get_elem?-of_lt : (xs : List A) (i : ℕ) → i < length xs → (a : A) × (get_elem? xs i ≡ some a)
  get_elem?-of_lt [] i h = elim h [ ]
  get_elem?-of_lt (x ∷ xs) zero h = (x, refl)
  get_elem?-of_lt (x ∷ xs) (suc i) h = get_elem?-of_lt xs i (omega arith)

  pub lt-of_get_elem? : (xs : List A) (i : ℕ) {a : A} → get_elem? xs i ≡ some a → i < length xs
  lt-of_get_elem? [] i h = cc
  lt-of_get_elem? (x ∷ xs) zero h = omega arith
  lt-of_get_elem? (x ∷ xs) (suc i) h = omega (arith, lt-of_get_elem? xs i h)

  pub get_elem?-past : (xs : List A) (i : ℕ) → length xs ≤ i → get_elem? xs i ≡ none
  get_elem?-past [] i h = refl
  get_elem?-past (x ∷ xs) zero h = absurd (omega arith)
  get_elem?-past (x ∷ xs) (suc i) h = get_elem?-past xs i (omega arith)

  pub get_elem?-append_lt :
      (xs ys : List A) (i : ℕ) → i < length xs → get_elem? (xs ++ ys) i ≡ get_elem? xs i
  get_elem?-append_lt [] ys i h = elim h [ ]
  get_elem?-append_lt (x ∷ xs) ys zero h = refl
  get_elem?-append_lt (x ∷ xs) ys (suc i) h = get_elem?-append_lt xs ys i (omega arith)

  pub get_elem?-append_end :
      (xs : List A) (a : A) (i : ℕ) → i ≡ length xs → get_elem? (xs ++ a ∷ []) i ≡ some a
  get_elem?-append_end [] a zero h = refl
  get_elem?-append_end [] a (suc i) h = absurd (omega arith)
  get_elem?-append_end (x ∷ xs) a zero h = absurd (omega arith)
  get_elem?-append_end (x ∷ xs) a (suc i) h = get_elem?-append_end xs a i (omega arith)

  pub get_elem?-set_self :
      (xs : List A) (i : ℕ) (v : A) → i < length xs → get_elem? (set xs i v) i ≡ some v
  get_elem?-set_self [] i v h = elim h [ ]
  get_elem?-set_self (x ∷ xs) zero v h = refl
  get_elem?-set_self (x ∷ xs) (suc i) v h = get_elem?-set_self xs i v (omega arith)

  pub get_elem?-set_ne :
      (xs : List A) (i j : ℕ) (v : A) → i ≢ j → get_elem? (set xs i v) j ≡ get_elem? xs j
  get_elem?-set_ne [] i j v h = refl
  get_elem?-set_ne (x ∷ xs) zero zero v h = absurd (h refl)
  get_elem?-set_ne (x ∷ xs) zero (suc j) v h = refl
  get_elem?-set_ne (x ∷ xs) (suc i) zero v h = refl
  get_elem?-set_ne (x ∷ xs) (suc i) (suc j) v h = get_elem?-set_ne xs i j v (λ e. h (ap suc e))

  pub get_or-of_get_elem? :
      (xs : List A) (i : ℕ) (a d : A) → get_elem? xs i ≡ some a → get_or xs i d ≡ a
  get_or-of_get_elem? [] i a d h = cc
  get_or-of_get_elem? (x ∷ xs) zero a d h = cc
  get_or-of_get_elem? (x ∷ xs) (suc i) a d h = get_or-of_get_elem? xs i a d h

  pub get_or-of_none : (xs : List A) (i : ℕ) (d : A) → get_elem? xs i ≡ none → get_or xs i d ≡ d
  get_or-of_none [] i d h = refl
  get_or-of_none (x ∷ xs) zero d h = cc
  get_or-of_none (x ∷ xs) (suc i) d h = get_or-of_none xs i d h

  pub All-get_elem? {κ} :
      (P : A → Type κ) (xs : List A) (i : ℕ) (a : A) → All P xs → get_elem? xs i ≡ some a → P a
  All-get_elem? P [] i a h e = cc
  All-get_elem? P (x ∷ xs) zero a h e = subst P (some-injective _ _ e) h.0
  All-get_elem? P (x ∷ xs) (suc i) a h e = All-get_elem? P xs i a h.1 e

  pub All-of_get_elem? {κ} :
      (P : A → Type κ) (xs : List A) → ((i : ℕ) (a : A) → get_elem? xs i ≡ some a → P a) → All P xs
  All-of_get_elem? P [] f = tt
  All-of_get_elem? P (x ∷ xs) f = (f 0 x refl, All-of_get_elem? P xs (λ i. f (suc i)))

  pub get_elem?-append_some :
      (xs ys : List A) (i : ℕ) (a : A) → get_elem? xs i ≡ some a → get_elem? (xs ++ ys) i ≡ some a
  get_elem?-append_some xs ys i a h = get_elem?-append_lt xs ys i (lt-of_get_elem? xs i h) ∙ h

  -- What stands in a list with one more element at the end.
  pub get_elem?-snoc :
      (xs : List A) (a : A) (i : ℕ) (b : A)
      → get_elem? (xs ++ a ∷ []) i ≡ some b
      → (get_elem? xs i ≡ some b) ⊎ ((i ≡ length xs) × (a ≡ b))
  get_elem?-snoc [] a zero b h = inr (refl, some-injective a b h)
  get_elem?-snoc [] a (suc i) b h = cc
  get_elem?-snoc (x ∷ xs) a zero b h = inl h
  get_elem?-snoc (x ∷ xs) a (suc i) b h = elim (get_elem?-snoc xs a i b h) [
    | inl e ↦ inl e
    | inr (e, f) ↦ inr (ap suc e, f)
  ]

  pub get_or-append_lt :
      (xs ys : List A) (i : ℕ) (d : A) → i < length xs → get_or (xs ++ ys) i d ≡ get_or xs i d
  get_or-append_lt [] ys i d h = elim h [ ]
  get_or-append_lt (x ∷ xs) ys zero d h = refl
  get_or-append_lt (x ∷ xs) ys (suc i) d h = get_or-append_lt xs ys i d (omega arith)

  pub get_or-append_end :
      (xs : List A) (a : A) (i : ℕ) (d : A) → i ≡ length xs → get_or (xs ++ a ∷ []) i d ≡ a
  get_or-append_end [] a zero d h = refl
  get_or-append_end [] a (suc i) d h = absurd (omega arith)
  get_or-append_end (x ∷ xs) a zero d h = absurd (omega arith)
  get_or-append_end (x ∷ xs) a (suc i) d h = get_or-append_end xs a i d (omega arith)

  pub get_or-set_self :
      (xs : List A) (i : ℕ) (v d : A) → i < length xs → get_or (set xs i v) i d ≡ v
  get_or-set_self [] i v d h = elim h [ ]
  get_or-set_self (x ∷ xs) zero v d h = refl
  get_or-set_self (x ∷ xs) (suc i) v d h = get_or-set_self xs i v d (omega arith)

  pub get_or-set_ne :
      (xs : List A) (i j : ℕ) (v d : A) → i ≢ j → get_or (set xs i v) j d ≡ get_or xs j d
  get_or-set_ne [] i j v d h = refl
  get_or-set_ne (x ∷ xs) zero zero v d h = absurd (h refl)
  get_or-set_ne (x ∷ xs) zero (suc j) v d h = refl
  get_or-set_ne (x ∷ xs) (suc i) zero v d h = refl
  get_or-set_ne (x ∷ xs) (suc i) (suc j) v d h = get_or-set_ne xs i j v d (λ e. h (ap suc e))
