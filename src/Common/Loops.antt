-- ===== src/Common/Loops.antt =====
-- Counted loops and loops over an enumerated list, each with one invariant rule.
use Prim.Native.Nat.{ℕ, zero, suc, ◌+◌, ◌<◌}
use mathlib.Core.Path.{◌≡◌, refl, subst, ap, ◌∙◌}
use mathlib.Core.List.{List, [], ◌∷◌, map}
use mathlib.Core.Option.{some}
use native.Mathlib.Omega.{arith}
use native.Mathlib.Nat.{add-zero}
use abyss_backend.Common.Lists.{length, get_elem?, get_or}

-- `for index in from..from + n { state = body(index, state) }`
abbrev pub for_range {ℓ} : {S : Type ℓ} → (ℕ → S → S) → ℕ → ℕ → S → S
for_range body from zero s = s
for_range body from (suc n) s = for_range body (suc from) n (body from s)

-- `for (index, x) in xs.iter().enumerate()`, counted from `from`.
abbrev pub for_each {ℓ κ} : {A : Type κ} {S : Type ℓ} → (ℕ → A → S → S) → ℕ → List A → S → S
for_each body from [] s = s
for_each body from (x ∷ xs) s = for_each body (suc from) xs (body from x s)

-- The numbers `from`, …, `from + n - 1`.
abbrev pub range : ℕ → ℕ → List ℕ
range from zero = []
range from (suc n) = from ∷ range (suc from) n

pub for_range_inv {ℓ κ} :
    {S : Type ℓ} (P : ℕ → S → Type κ) (body : ℕ → S → S) (from n : ℕ)
    → ((i : ℕ) (s : S) → i < from + n → P i s → P (suc i) (body i s))
    → (s : S) → P from s
    → P (from + n) (for_range body from n s)
for_range_inv P body from zero step s h = subst (λ k. P k s) (omega arith) h
for_range_inv P body from (suc n) step s h =
    subst (λ k. P k (for_range body (suc from) n (body from s))) (omega arith)
      (for_range_inv P body (suc from) n (λ i t lt. step i t (omega arith)) (body from s)
        (step from s (omega arith) h))

pub for_each_inv {ℓ κ μ} :
    {A : Type μ} {S : Type ℓ} (P : ℕ → S → Type κ) (body : ℕ → A → S → S) (from : ℕ) (xs : List A)
    → ((i : ℕ) (x : A) (s : S)
        → get_elem? xs i ≡ some x
        → P (from + i) s
        → P (suc (from + i)) (body (from + i) x s))
    → (s : S) → P from s
    → P (from + length xs) (for_each body from xs s)
for_each_inv P body from [] step s h = subst (λ k. P k s) (omega arith) h
for_each_inv {A = A} {S = S} P body from (x ∷ xs) step s h =
    subst (λ k. P k (for_each body (suc from) xs (body from x s))) (omega arith)
      (for_each_inv P body (suc from) xs later (body from x s) now)
  where
    now : P (suc from) (body from x s)
    now = subst (λ k. P k s → P (suc k) (body k x s)) (add-zero from) (step 0 x s refl) h

    later :
        (i : ℕ) (y : A) (t : S)
        → get_elem? xs i ≡ some y
        → P (suc from + i) t
        → P (suc (suc from + i)) (body (suc from + i) y t)
    later i y t e = subst (λ k. P k t → P (suc k) (body k y t)) (omega arith) (step (suc i) y t e)

get_or-map-range {ℓ} :
    {A : Type ℓ} (f : ℕ → A) (from n i : ℕ) (d : A)
    → i < n
    → get_or (map f (range from n)) i d ≡ f (from + i)
get_or-map-range f from zero i d h = elim h [ ]
get_or-map-range f from (suc n) zero d h = ap f (omega arith)
get_or-map-range f from (suc n) (suc i) d h =
    get_or-map-range f (suc from) n i d (omega arith) ∙ ap f (omega arith)

pub length-range : (from n : ℕ) → length (range from n) ≡ n
length-range from zero = refl
length-range from (suc n) = ap suc (length-range (suc from) n)

pub get_or-map_indices {ℓ} :
    {A : Type ℓ} (f : ℕ → A) (n i : ℕ) (d : A) → i < n → get_or (map f (range 0 n)) i d ≡ f i
get_or-map_indices f n i d h = get_or-map-range f 0 n i d h ∙ ap f (omega arith)

-- The rules of loops that start at 0.
pub for_each_rule {ℓ κ μ} :
    {A : Type μ} {S : Type ℓ} (P : ℕ → S → Type κ) (body : ℕ → A → S → S) (xs : List A)
    → ((i : ℕ) (x : A) (s : S) → get_elem? xs i ≡ some x → P i s → P (suc i) (body i x s))
    → (s : S) → P 0 s
    → P (length xs) (for_each body 0 xs s)
for_each_rule P body xs step s h =
    subst (λ n. P n (for_each body 0 xs s)) (omega arith)
      (for_each_inv P body 0 xs
        (λ i x t e p.
          let z : i ≡ 0 + i = omega arith in
          subst (λ n. P n t → P (suc n) (body n x t)) z (step i x t e) p)
        s h)

pub for_range_rule {ℓ κ} :
    {S : Type ℓ} (P : ℕ → S → Type κ) (body : ℕ → S → S) (n : ℕ)
    → ((i : ℕ) (s : S) → i < n → P i s → P (suc i) (body i s))
    → (s : S) → P 0 s
    → P n (for_range body 0 n s)
for_range_rule P body n step s h =
    subst (λ k. P k (for_range body 0 n s)) (omega arith)
      (for_range_inv P body 0 n (λ i t lt p. step i t (omega arith) p) s h)
