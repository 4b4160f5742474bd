-- ===== src/Common/Keyed.antt =====
-- Lists whose elements have keys that differ.
use mathlib.Core.Path.{◌≡◌, refl, sym}
use mathlib.Core.Bool.{Bool, false}
use mathlib.Core.List.{List, [], ◌∷◌, map}
use mathlib.Core.Logic.{inl, inr}
use abyss_backend.Common.Tests.{Eq, ◌==◌, Bool-cases, or-eq-false, ne→==, ==→ne}
use abyss_backend.Common.Maps.{contains, Distinct}
use abyss_backend.Common.Sorting.{insert_by, sort_by}

module _ {ℓ κ} {A : Type ℓ} {K : Type κ} ⦃e : Eq K⦄ (key : A → K) (le : A → A → Bool) where
  absent-insert_by :
      (x : A) (ys : List A) (k : K)
      → (key x == k) ≡ false
      → contains (map key ys) k ≡ false
      → contains (map key (insert_by le x ys)) k ≡ false
  absent-insert_by x [] k n h = rw n refl
  absent-insert_by x (y ∷ ys) k n h = elim (Bool-cases (le x y)) [
    | inl p ↦ rw p (rw n h)
    | inr p ↦
        let (here, later) = or-eq-false (key y == k) (contains (map key ys) k) h in
        rw p (rw here (absent-insert_by x ys k n later))
  ]

  Distinct-insert_by :
      (x : A) (ys : List A)
      → contains (map key ys) (key x) ≡ false
      → Distinct (map key ys)
      → Distinct (map key (insert_by le x ys))
  Distinct-insert_by x [] h d = (refl, tt)
  Distinct-insert_by x (y ∷ ys) h d = elim (Bool-cases (le x y)) [
    | inl p ↦ rw p (h, d)
    | inr p ↦
        let (here, later) = or-eq-false (key y == key x) (contains (map key ys) (key x)) h in
        rw p (
          absent-insert_by x ys (key y)
              (ne→== (key x) (key y) (λ q. ==→ne (key y) (key x) here (sym q))) d.0,
          Distinct-insert_by x ys later d.1,
        )
  ]

  absent-sort_by :
      (xs : List A) (k : K)
      → contains (map key xs) k ≡ false
      → contains (map key (sort_by le xs)) k ≡ false
  absent-sort_by [] k h = h
  absent-sort_by (x ∷ xs) k h =
      let (here, later) = or-eq-false (key x == k) (contains (map key xs) k) h in
      absent-insert_by x (sort_by le xs) k here (absent-sort_by xs k later)

  pub Distinct-sort_by : (xs : List A) → Distinct (map key xs) → Distinct (map key (sort_by le xs))
  Distinct-sort_by [] d = tt
  Distinct-sort_by (x ∷ xs) d =
      Distinct-insert_by x (sort_by le xs) (absent-sort_by xs (key x) d.0) (Distinct-sort_by xs d.1)
