-- ===== src/Common/Tests.antt =====
-- Boolean tests, the conditional, and equality as an interface with its instances.
use Prim.Native.Nat.{ℕ, ◌≤◌, ◌<◌, compare, Ordering}
use Prim.Native.String.{String}
use text.Mathlib.Text.{◌==◌ as str_eq}
use text.Mathlib.TextEquality.{eq_iff}
use mathlib.Core.Path.{◌≡◌, refl, ap}
use mathlib.Core.Logic.{◌≢◌, ◌↔◌, ◌⊎◌, inl, inr}
use mathlib.Core.Bool.{Bool, true, false, ◌&&◌, ◌||◌}
use mathlib.Core.Option.{Option, none, some}
use mathlib.Core.List.{List, [], ◌∷◌}
use native.Mathlib.Omega.{arith}

abbrev pub ltb : ℕ → ℕ → Bool
ltb a b = elim (compare a b) [ Ordering.lt ↦ true | _ ↦ false ]

abbrev pub leb : ℕ → ℕ → Bool
leb a b = elim (compare a b) [ Ordering.gt ↦ false | _ ↦ true ]

abbrev nat_eqb : ℕ → ℕ → Bool
nat_eqb a b = elim (compare a b) [ Ordering.eq ↦ true | _ ↦ false ]

pub nat_eqb_iff : (a b : ℕ) → (nat_eqb a b ≡ true) ↔ (a ≡ b)
nat_eqb_iff a b = ground arith

infix 1 if◌then◌else◌
abbrev pub if◌then◌else◌ {ℓ} : {A : Type ℓ} → Bool → A → A → A
if true then x else y = x
if false then x else y = y

pub ltb→lt : (a b : ℕ) → ltb a b ≡ true → a < b
ltb→lt a b h = ground arith

pub lt→ltb : (a b : ℕ) → a < b → ltb a b ≡ true
lt→ltb a b h = ground arith

pub ltb→le : (a b : ℕ) → ltb a b ≡ false → b ≤ a
ltb→le a b h = ground arith

pub le→ltb : (a b : ℕ) → b ≤ a → ltb a b ≡ false
le→ltb a b h = ground arith

pub Bool-cases : (b : Bool) → (b ≡ true) ⊎ (b ≡ false)
Bool-cases true = inl refl
Bool-cases false = inr refl

-- What holds of both branches holds of the conditional.
pub if-intro {ℓ κ} :
    {A : Type ℓ} (P : A → Type κ) (b : Bool) (x y : A)
    → (b ≡ true → P x)
    → (b ≡ false → P y)
    → P (if b then x else y)
if-intro P true x y f g = f refl
if-intro P false x y f g = g refl

pub Option-cases {ℓ} : {A : Type ℓ} (o : Option A) → (o ≡ none) ⊎ ((a : A) × (o ≡ some a))
Option-cases none = inl refl
Option-cases (some a) = inr (a, refl)

pub and-eq-true : (a b : Bool) → (a && b) ≡ true → (a ≡ true) × (b ≡ true)
and-eq-true a b h = ground arith

pub or-eq-false : (a b : Bool) → (a || b) ≡ false → (a ≡ false) × (b ≡ false)
or-eq-false a b h = ground arith

pub leb→lt : (a b : ℕ) → leb a b ≡ false → b < a
leb→lt a b h = ground arith

pub leb→le : (a b : ℕ) → leb a b ≡ true → a ≤ b
leb→le a b h = ground arith

-- What `PartialEq` is to the program: a test, with the law that it decides `≡`.
pub record Eq {ℓ} (A : Type ℓ) : Type ℓ where
  pub test : A → A → Bool
  pub decides : (x y : A) → (test x y ≡ true) ↔ (x ≡ y)

instance abbrev pub string_eq : Eq String
string_eq = record { test = str_eq; decides = eq_iff }

instance abbrev pub nat_eq : Eq ℕ
nat_eq = record { test = nat_eqb; decides = nat_eqb_iff }

infix 50 ◌==◌
abbrev pub ◌==◌ {ℓ} : {A : Type ℓ} ⦃equality : Eq A⦄ → A → A → Bool
◌==◌ ⦃equality⦄ a b = equality.test a b

module _ {ℓ} {A : Type ℓ} ⦃e : Eq A⦄ where
  pub ==→eq : (a b : A) → (a == b) ≡ true → a ≡ b
  ==→eq a b = (e.decides a b).0

  pub ==_refl : (a : A) → (a == a) ≡ true
  ==_refl a = (e.decides a a).1 refl

  pub ==→ne : (a b : A) → (a == b) ≡ false → a ≢ b
  ==→ne a b h p = cc ((e.decides a b).1 p)

  pub ne→== : (a b : A) → a ≢ b → (a == b) ≡ false
  ne→== a b h = elim (Bool-cases (a == b)) [ inl p ↦ absurd (h (==→eq a b p)) | inr q ↦ q ]

  -- The two answers of a test, each with what it says.
  pub ==-cases : (a b : A) → (((a == b) ≡ true) × (a ≡ b)) ⊎ (((a == b) ≡ false) × (a ≢ b))
  ==-cases a b = elim (Bool-cases (a == b)) [
    | inl p ↦ inl (p, ==→eq a b p)
    | inr q ↦ inr (q, ==→ne a b q)
  ]

module _ {ℓ} {A : Type ℓ} ⦃e : Eq A⦄ where
  abbrev option_eqb : Option A → Option A → Bool
  option_eqb none none = true
  option_eqb (some a) (some b) = e.test a b
  option_eqb _ _ = false

  pub option_eqb_iff : (a b : Option A) → (option_eqb a b ≡ true) ↔ (a ≡ b)
  option_eqb_iff none none = ((λ h. refl), (λ h. refl))
  option_eqb_iff (some a) (some b) =
      ((λ h. ap some ((e.decides a b).0 h)), (λ h. (e.decides a b).1 (cc)))
  option_eqb_iff none (some b) = ((λ h. cc), (λ h. cc))
  option_eqb_iff (some a) none = ((λ h. cc), (λ h. cc))

  instance abbrev pub option_eq : Eq (Option A)
  option_eq = record { test = option_eqb; decides = option_eqb_iff }

module _ {ℓ} {A : Type ℓ} ⦃e : Eq A⦄ where
  abbrev list_eqb : List A → List A → Bool
  list_eqb [] [] = true
  list_eqb (a ∷ as') (b ∷ bs) = e.test a b && list_eqb as' bs
  list_eqb _ _ = false

  pub list_eqb_iff : (xs ys : List A) → (list_eqb xs ys ≡ true) ↔ (xs ≡ ys)
  list_eqb_iff [] [] = ((λ h. refl), (λ h. refl))
  list_eqb_iff [] (y ∷ ys) = ((λ h. cc), (λ h. cc))
  list_eqb_iff (x ∷ xs) [] = ((λ h. cc), (λ h. cc))
  list_eqb_iff (x ∷ xs) (y ∷ ys) = (
    (λ h.
        let (l, r) = and-eq-true (e.test x y) (list_eqb xs ys) h in
        cc ((e.decides x y).0 l, (list_eqb_iff xs ys).0 r)),
    (λ h. cc ((e.decides x y).1 (cc), (list_eqb_iff xs ys).1 (cc))),
  )

  instance abbrev pub list_eq : Eq (List A)
  list_eq = record { test = list_eqb; decides = list_eqb_iff }

module _ {ℓ κ} {A : Type ℓ} {B : Type κ} ⦃e : Eq A⦄ ⦃f : Eq B⦄ where
  abbrev pair_eqb : A × B → A × B → Bool
  pair_eqb (a, b) (c, d) = e.test a c && f.test b d

  pub pair_eqb_iff : (p q : A × B) → (pair_eqb p q ≡ true) ↔ (p ≡ q)
  pair_eqb_iff (a, b) (c, d) = (
    (λ h.
        let (l, r) = and-eq-true (e.test a c) (f.test b d) h in
        cc ((e.decides a c).0 l, (f.decides b d).0 r)),
    (λ h. cc (
      (e.decides a c).1 (ap (λ (p : A × B). p.0) h),
      (f.decides b d).1 (ap (λ (p : A × B). p.1) h),
    )),
  )

  instance abbrev pub pair_eq : Eq (A × B)
  pair_eq = record { test = pair_eqb; decides = pair_eqb_iff }
