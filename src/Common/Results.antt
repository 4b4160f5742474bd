-- ===== src/Common/Results.antt =====
-- `Result` and the options of the standard library.
use mathlib.Core.Bool.{Bool, true, false, ◌&&◌}
use native.Mathlib.Omega.{arith}
use abyss_backend.Common.Lists.{all}
use mathlib.Core.List.{List, [], ◌∷◌}
use mathlib.Core.Option.{Option, none, some}
use mathlib.Core.Path.{◌≡◌, refl, ap, ◌∙◌}
use mathlib.Core.Logic.{◌⊎◌, ◌↔◌, inl, inr}

pub data Result {ℓ κ} (E : Type κ) (A : Type ℓ) : Type (ℓ ⊔ κ) where
  ok : A → Result E A
  err : E → Result E A

module _ {ℓ κ μ} {E : Type κ} {A : Type ℓ} {B : Type μ} where
  infixl 5 ◌>>=◌
  -- The `?` operator.
  abbrev pub ◌>>=◌ : Result E A → (A → Result E B) → Result E B
  ok a >>= f = f a
  err e >>= f = err e

module _ {ℓ κ} {E : Type κ} {A : Type ℓ} where
  -- `Result::ok`, `Result::err`, `Option::ok_or`.
  abbrev pub to_option : Result E A → Option A
  to_option (ok a) = some a
  to_option (err e) = none

  abbrev pub to_error : Result E A → Option E
  to_error (ok a) = none
  to_error (err e) = some e

  abbrev pub ok_or : Option A → E → Result E A
  ok_or none e = err e
  ok_or (some a) e = ok a

  pub Result-cases : (r : Result E A) → ((a : A) × (r ≡ ok a)) ⊎ ((e : E) × (r ≡ err e))
  Result-cases (ok a) = inl (a, refl)
  Result-cases (err e) = inr (e, refl)

module _ {ℓ} {A : Type ℓ} where
  abbrev pub is_some : Option A → Bool
  is_some none = false
  is_some (some a) = true

  abbrev pub is_none : Option A → Bool
  is_none none = true
  is_none (some a) = false

  abbrev pub or_else : Option A → Option A → Option A
  or_else none b = b
  or_else (some a) b = some a

  abbrev pub unwrap_or : Option A → A → A
  unwrap_or none d = d
  unwrap_or (some a) d = a

  abbrev pub to_list : Option A → List A
  to_list none = []
  to_list (some a) = a ∷ []

module _ {ℓ κ} {A : Type ℓ} {B : Type κ} where
  abbrev pub and_then : Option A → (A → Option B) → Option B
  and_then none f = none
  and_then (some a) f = f a

  abbrev pub map_option : (A → B) → Option A → Option B
  map_option f none = none
  map_option f (some a) = some (f a)

  abbrev pub map_or : B → (A → B) → Option A → B
  map_or d f none = d
  map_or d f (some a) = f a

module _ {ℓ κ} {E : Type κ} {A : Type ℓ} where
  pub ok-injective : (r : Result E A) {a b : A} → r ≡ ok a → r ≡ ok b → a ≡ b
  ok-injective r h k = cc

  pub ok-ne-err : (r : Result E A) (e : E) {a : A} → r ≡ ok a → r ≡ err e → ⊥
  ok-ne-err r e h k = cc

module _ {ℓ κ} {E : Type κ} {A : Type ℓ} where
  infixl 5 ◌>>◌
  abbrev pub ◌>>◌ : Result E (Unit {0}) → Result E A → Result E A
  m >> r = m >>= λ _. r

  -- A chain of checks succeeds exactly if each does.
  pub >>_iff :
      (m : Result E (Unit {0})) (r : Result E A) (a : A)
      → ((m >> r) ≡ ok a) ↔ ((m ≡ ok tt) × (r ≡ ok a))
  >>_iff (ok _) r a = ((λ h. (refl, h)), (λ h. h.1))
  >>_iff (err e) r a = ((λ h. absurd (cc)), (λ h. absurd (cc)))

  abbrev pub is_ok : Result E A → Bool
  is_ok (ok a) = true
  is_ok (err e) = false

-- `Iterator::collect::<Result<Vec<_>, _>>`, of a mapped list: the first error stops it.
module _ {ℓ κ μ} {E : Type κ} {A : Type ℓ} {B : Type μ} where
  abbrev pub traverse : (A → Result E B) → List A → Result E (List B)
  traverse f [] = ok []
  traverse f (x ∷ xs) = f x >>= λ y. traverse f xs >>= λ ys. ok (y ∷ ys)

  -- A chain that succeeds went through a value of its first link.
  pub >>=-ok :
      (next : A → Result E B) (r : Result E A) {b : B} (h : (r >>= next) ≡ ok b)
      → (a : A) × (r ≡ ok a) × (next a ≡ ok b)
  >>=-ok next (err e) h = absurd (cc)
  >>=-ok next (ok a) h = (a, refl, h)

  pub >>=-assoc {ν} :
      {C : Type ν} (m : Result E A) (f : A → Result E B) (g : B → Result E C)
      → ((m >>= f) >>= g) ≡ (m >>= λ a. f a >>= g)
  >>=-assoc (ok a) f g = refl
  >>=-assoc (err e) f g = refl

  -- Links that give the same of every value make chains that do.
  pub >>=-cong :
      (m : Result E A) (f g : A → Result E B) → ((a : A) → f a ≡ g a) → (m >>= f) ≡ (m >>= g)
  >>=-cong (ok a) f g h = h a
  >>=-cong (err e) f g h = refl

  -- A step of a list that is collected without an error.
  pub traverse-cons :
      (f : A → Result E B) (x : A) (xs : List A) {zs : List B}
      → traverse f (x ∷ xs) ≡ ok zs
      → (y : B) × (ys : List B) × (f x ≡ ok y) × (traverse f xs ≡ ok ys) × (zs ≡ y ∷ ys)
  traverse-cons f x xs h = elim (Result-cases (f x)) [
    | inl (y, e) ↦ elim (Result-cases (traverse f xs)) [
      | inl (ys, g) ↦ (y, ys, e, g, ok-injective (traverse f (x ∷ xs)) h (rw e (rw g refl)))
      | inr (x', g) ↦ absurd (ok-ne-err (traverse f (x ∷ xs)) x' h (rw e (rw g refl)))
    ]
    | inr (x', e) ↦ absurd (ok-ne-err (traverse f (x ∷ xs)) x' h (rw e refl))
  ]

  -- A chain succeeds exactly if both links do, where the second does not depend on the value.
  pub is_ok-bind :
      (m : Result E A) (f : A → Result E B) (b : Bool)
      → ((a : A) → m ≡ ok a → is_ok (f a) ≡ b)
      → is_ok (m >>= f) ≡ (is_ok m && b)
  is_ok-bind (ok a) f b h = h a refl
  is_ok-bind (err e) f b h = refl

  pub is_ok-chain :
      (m : Result E A) (f : A → Result E B) (p b : Bool)
      → is_ok m ≡ p
      → ((a : A) → is_ok (f a) ≡ b)
      → is_ok (m >>= f) ≡ (p && b)
  is_ok-chain m f p b e h = is_ok-bind m f b (λ a _. h a) ∙ ap (λ q. q && b) e

  pub is_ok-traverse :
      (f : A → Result E B) (p : A → Bool) (xs : List A)
      → ((x : A) → is_ok (f x) ≡ p x)
      → is_ok (traverse f xs) ≡ all p xs
  is_ok-traverse f p [] h = refl
  is_ok-traverse f p (x ∷ xs) h = elim (Result-cases (f x)) [
    | inr (e, q) ↦ rw q (ground (arith, h x, q))
    | inl (y, q) ↦ elim (Result-cases (traverse f xs)) [
      | inl (ys, r) ↦ ground (arith, h x, q, r, is_ok-traverse f p xs h)
      | inr (e, r) ↦ ground (arith, h x, q, r, is_ok-traverse f p xs h)
    ]
  ]
