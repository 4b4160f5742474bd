-- ===== src/Common/Maps.antt =====
-- A hash map as an association list, and a hash set as the list of its members.
use mathlib.Core.Path.{◌≡◌, refl, sym, ap, ◌∙◌, subst}
use mathlib.Core.Logic.{◌≢◌, ◌↔◌, inl, inr}
use mathlib.Core.Bool.{Bool, true, false, ◌||◌}
use mathlib.Core.List.{List, [], ◌∷◌, ◌++◌}
use mathlib.Core.Option.{Option, none, some}
use native.Mathlib.Omega.{arith}
use abyss_backend.Common.Tests.{Eq, ◌==◌, if◌then◌else◌, Bool-cases, ==_refl, ne→==, ==-cases}
use abyss_backend.Common.Lists.{All}

module _ {ℓ κ} {K : Type ℓ} {V : Type κ} ⦃e : Eq K⦄ where
  abbrev pub lookup : K → List (K × V) → Option V
  lookup k [] = none
  lookup k ((j, v) ∷ m) = if j == k then some v else lookup k m

  -- `map.insert(k, v)`
  abbrev pub insert : K → V → List (K × V) → List (K × V)
  insert k v [] = (k, v) ∷ []
  insert k v ((j, w) ∷ m) = if j == k then (j, v) ∷ m else (j, w) ∷ insert k v m

  -- What `map.remove(&k)` leaves.
  abbrev pub without : K → List (K × V) → List (K × V)
  without k [] = []
  without k ((j, v) ∷ m) = let kept = without k m in if j == k then kept else (j, v) ∷ kept

  pub lookup-without :
      (k j : K) (m : List (K × V)) → lookup j (without k m) ≡ (if k == j then none else lookup j m)
  lookup-without k j [] = elim (Bool-cases (k == j)) [ inl e ↦ rw e refl | inr e ↦ rw e refl ]
  lookup-without k j ((i, v) ∷ m) = elim (==-cases i k) [
    | inl (p, q) ↦ rw p (lookup-without k j m ∙ hidden (k == j) (i == j) (ap (λ l. l == j) (sym q)))
    | inr (p, q) ↦ elim (==-cases i j) [
      | inl (s, t) ↦ rw p (rw s (rw (ne→== k j (λ e. q (t ∙ sym e))) refl))
      | inr (s, t) ↦ rw p (rw s (lookup-without k j m))
    ]
  ]
    where
      hidden :
          (a b : Bool)
          → a ≡ b
          → (if a then none else lookup j m)
            ≡ (if a then none else (if b then some v else lookup j m))
      hidden a b h = ground arith

  pub lookup-insert_self : (k : K) (v : V) (m : List (K × V)) → lookup k (insert k v m) ≡ some v
  lookup-insert_self k v [] = rw (==_refl k)
  lookup-insert_self k v ((j, w) ∷ m) = elim (Bool-cases (j == k)) [
    | inl p ↦ rw p (rw p)
    | inr q ↦ rw q (rw q (lookup-insert_self k v m))
  ]

  pub lookup-insert_ne :
      (k j : K) (v : V) (m : List (K × V)) → k ≢ j → lookup j (insert k v m) ≡ lookup j m
  lookup-insert_ne k j v [] h = rw (ne→== k j h)
  lookup-insert_ne k j v ((i, w) ∷ m) h = elim (==-cases i k) [
    | inl (p, q) ↦ rw p (rw (ne→== i j (λ r. h (sym q ∙ r))))
    | inr (p, q) ↦ rw p (rw (lookup-insert_ne k j v m h))
  ]

module _ {ℓ} {A : Type ℓ} ⦃e : Eq A⦄ where
  -- `set.contains(&a)`
  abbrev pub contains : List A → A → Bool
  contains [] a = false
  contains (x ∷ xs) a = x == a || contains xs a

  pub All-contains {κ} :
      (P : A → Type κ) (xs : List A) (a : A) → All P xs → contains xs a ≡ true → P a
  All-contains P [] a h e = cc
  All-contains P (x ∷ xs) a h e = elim (==-cases x a) [
    | inl (_, q) ↦ subst P q h.0
    | inr (n, _) ↦ All-contains P xs a h.1 (ground arith)
  ]

  pub All-of_contains {κ} :
      (P : A → Type κ) (xs : List A) → ((a : A) → contains xs a ≡ true → P a) → All P xs
  All-of_contains P [] f = tt
  All-of_contains P (x ∷ xs) f =
      (f x (ground (arith, ==_refl x)), All-of_contains P xs (λ a h. f a (ground (arith, h))))

  -- No element stands twice.
  abbrev pub Distinct : List A → Type 0
  Distinct [] = Unit
  Distinct (x ∷ xs) = (contains xs x ≡ false) × Distinct xs

  pub contains-append :
      (xs ys : List A) (a : A) → contains (xs ++ ys) a ≡ (contains xs a || contains ys a)
  contains-append [] ys a = refl
  contains-append (x ∷ xs) ys a = ground (arith, contains-append xs ys a)

  pub Distinct-snoc :
      (xs : List A) (a : A) → Distinct xs → contains xs a ≡ false → Distinct (xs ++ a ∷ [])
  Distinct-snoc [] a d h = (refl, tt)
  Distinct-snoc (x ∷ xs) a d h = elim (==-cases x a) [
    | inl (p, _) ↦ absurd (ground arith)
    | inr (p, n) ↦ (
      contains-append xs (a ∷ []) x ∙ rw (d.0) (rw (ne→== a x (λ e. n (sym e)))),
      Distinct-snoc xs a d.1 (ground arith),
    )
  ]

  -- None of a list has been seen.
  abbrev pub Fresh : List A → List A → Type ℓ
  Fresh seen xs = (y : A) → contains seen y ≡ true → contains xs y ≡ false

  -- One round of a loop that refuses what it has seen.
  pub Fresh-cons :
      (seen : List A) (x : A) (xs : List A)
      → ((contains seen x ≡ false) × Distinct xs × Fresh (x ∷ seen) xs)
        ↔ (Distinct (x ∷ xs) × Fresh seen (x ∷ xs))
  Fresh-cons seen x xs = (
    (λ (n, d, f). (
      (f x (ground (arith, ==_refl x)), d),
      (λ y h. elim (==-cases x y) [
        | inl (_, q) ↦ absurd (ground (arith, n, h, ap (contains seen) q))
        | inr (p, _) ↦ ground (arith, p, f y, h)
      ]),
    )),
    (λ ((n, d), f). (
      elim (Bool-cases (contains seen x)) [
        | inl e ↦ absurd (ground (arith, f x e, ==_refl x))
        | inr e ↦ e
      ],
      d,
      (λ y h. elim (==-cases x y) [
        | inl (_, q) ↦ ap (contains xs) (sym q) ∙ n
        | inr (p, _) ↦ ground (arith, p, f y, h)
      ]),
    )),
  )
