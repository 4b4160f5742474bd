-- ===== src/Common/Membership.antt =====
-- Membership by test, and membership.
use mathlib.Core.Path.{◌≡◌, sym, subst}
use mathlib.Core.List.Perm
use mathlib.Core.Logic.{inl, inr}
use mathlib.Core.Logic.Or
use mathlib.Core.HLevel.{⊥_prop}
use mathlib.Core.Bool.{true, false}
use mathlib.Core.List.{
  List, [], ◌∷◌, Mem, mem-cons_self, mem-cons_of_mem, not-mem-nil, eq-or-mem_of_mem-cons, Perm,
}
use native.Mathlib.Omega.{arith}
use abyss_backend.Common.Tests.{Eq, Bool-cases, ==-cases, ==→ne}
use abyss_backend.Common.Maps.{contains}

module _ {ℓ} {A : Type ℓ} ⦃e : Eq A⦄ where
  Mem-of_contains : (a : A) (xs : List A) → contains xs a ≡ true → Mem a xs
  Mem-of_contains a [] h = absurd (cc)
  Mem-of_contains a (x ∷ xs) h = elim (==-cases x a) [
    | inl (p, q) ↦ subst (λ y. Mem y (x ∷ xs)) q mem-cons_self
    | inr (p, q) ↦ mem-cons_of_mem x (Mem-of_contains a xs (ground (arith, h, p)))
  ]

  not-Mem : (a : A) (xs : List A) → contains xs a ≡ false → Mem a xs → ⊥
  not-Mem a [] h m = not-mem-nil m
  not-Mem a (x ∷ xs) h m =
      Or.elim ⊥_prop (eq-or-mem_of_mem-cons m) (λ q. ==→ne x a (ground (arith, h)) (sym q))
        (λ later. not-Mem a xs (ground (arith, h)) later)

  pub contains-Perm :
      (a : A) (xs ys : List A) → Perm xs ys → contains xs a ≡ true → contains ys a ≡ true
  contains-Perm a xs ys p h = elim (Bool-cases (contains ys a)) [
    | inl there ↦ there
    | inr gone ↦ absurd (not-Mem a ys gone ((Perm.mem_iff p).0 (Mem-of_contains a xs h)))
  ]
