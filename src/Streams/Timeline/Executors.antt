-- ===== src/Streams/Timeline/Executors.antt =====
-- The executors and the answer of the turn view of timeline.rs.
use mathlib.Core.List.{Perm}
use mathlib.Core.List.Perm
use mathlib.Core.Option.{some-injective}
use abyss_backend.Common.{
  ℕ, zero, suc, ◌<◌, true, List, [], ◌∷◌, Option, none, some, ◌≡◌, refl, sym, ap, subst, ◌∙◌, ◌≢◌,
  inl, inr, nat_eq, ==-cases, Option-cases, arith, length, length-map, length-range, map, get_or,
  set, range, contains, get_or-set_ne,
}
use abyss_backend.Streams.Timeline.{Executor, parent_of, take_slots, started_first}
use abyss_backend.Streams.Timeline.Order.{depth_first-Listing}

module _ {ℓ} {A : Type ℓ} where
  -- What is still in the slots.
  values : List (Option A) → List A
  values [] = []
  values (none ∷ slots) = values slots
  values (some a ∷ slots) = a ∷ values slots

  values-map-some : (xs : List A) → values (map some xs) ≡ xs
  unfolding values
  values-map-some [] = refl
  values-map-some (x ∷ xs) = ap (λ ys. x ∷ ys) (values-map-some xs)

  values-take :
      (slots : List (Option A)) (i : ℕ) (a : A)
      → get_or slots i none ≡ some a
      → Perm (values slots) (a ∷ values (set slots i none))
  unfolding values
  values-take [] i a e = absurd (cc)
  values-take (none ∷ slots) zero a e = absurd (cc)
  values-take (some x ∷ slots) zero a e = Perm.cons' (some-injective x a e) Perm.rfl
  values-take (none ∷ slots) (suc i) a e = values-take slots i a e
  values-take (some x ∷ slots) (suc i) a e =
      Perm.trans (Perm.cons x (values-take slots i a e)) (Perm.swap a x _)

  values-empty :
      (slots : List (Option A))
      → ((i : ℕ) (a : A) → get_or slots i none ≢ some a)
      → values slots ≡ []
  unfolding values
  values-empty [] h = refl
  values-empty (none ∷ slots) h = values-empty slots (λ i. h (suc i))
  values-empty (some a ∷ slots) h = absurd (h 0 a refl)

  set-none_same :
      (slots : List (Option A)) (i : ℕ) → get_or slots i none ≡ none → set slots i none ≡ slots
  set-none_same [] i e = refl
  set-none_same (x ∷ slots) zero e = rw e
  set-none_same (x ∷ slots) (suc i) e = ap (λ ys. x ∷ ys) (set-none_same slots i e)

  get_or-emptied :
      (slots : List (Option A)) (i : ℕ) (a : A) → get_or (set slots i none) i none ≢ some a
  get_or-emptied [] i a e = cc
  get_or-emptied (x ∷ slots) zero a e = cc
  get_or-emptied (x ∷ slots) (suc i) a e = get_or-emptied slots i a e

  -- Slots that are all named by the order are all taken.
  Covered : List (Option A) → List ℕ → Type ℓ
  Covered slots order = (i : ℕ) (a : A) → get_or slots i none ≡ some a → contains order i ≡ true

  Covered-next :
      (slots : List (Option A)) (i : ℕ) (order : List ℕ)
      → Covered slots (i ∷ order)
      → Covered (set slots i none) order
  unfolding Covered
  Covered-next slots i order h j a e = elim (==-cases i j) [
    | inl (_, q) ↦
        absurd (get_or-emptied slots i a (ap (λ k. get_or (set slots i none) k none) q ∙ e))
    | inr (p, q) ↦ let k = h j a (sym (get_or-set_ne slots i j none none q) ∙ e) in ground arith
  ]

  take_slots-perm :
      (order : List ℕ) (slots : List (Option A))
      → Covered slots order
      → Perm (values slots) (take_slots order slots)
  unfolding take_slots
  take_slots-perm [] slots h =
      rw (values-empty slots (λ i a e. unfold Covered in cc (h i a e))) Perm.nil
  take_slots-perm (i ∷ order) slots h =
      let rest = take_slots-perm order (set slots i none) (Covered-next slots i order h) in
      elim (Option-cases (get_or slots i none)) [
        | inl e ↦ rw e (
            subst (λ s. Perm (values s) (take_slots order (set slots i none)))
              (set-none_same slots i e) rest)
        | inr (a, e) ↦ rw e (Perm.trans (values-take slots i a e) (Perm.cons a rest))
      ]

  get_or-map-some :
      (xs : List A) (i : ℕ) (a : A) → get_or (map some xs) i none ≡ some a → i < length xs
  get_or-map-some [] i a e = cc
  get_or-map-some (x ∷ xs) zero a e = omega arith
  get_or-map-some (x ∷ xs) (suc i) a e = omega (arith, get_or-map-some xs i a e)

-- `started_first` always answers, and only reorders the executors.
pub started_first-perm :
    (executors : List Executor)
    → (ordered : List Executor) × (started_first executors ≡ some ordered) × Perm executors ordered
unfolding started_first
started_first-perm executors =
    let parents = map (parent_of executors) (range 0 (length executors)) in
    let (s, e, l) = depth_first-Listing parents in
    let sized =
      length-map (parent_of executors) (range 0 (length executors))
      ∙ length-range 0 (length executors) in
    (
      take_slots s.order (map some executors),
      rw e,
      subst (λ xs. Perm xs (take_slots s.order (map some executors))) (values-map-some executors)
          (take_slots-perm s.order (map some executors) (
            unfold Covered in
            λ i a h. l.complete i (omega (arith, sized, get_or-map-some executors i a h)))),
    )
