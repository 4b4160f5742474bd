-- ===== src/Common/Positions.antt =====
-- What the last position at which a test holds says of the list.
use Prim.Native.Nat.{ℕ, zero, suc, ◌+◌, ◌<◌, ◌≤◌}
use mathlib.Core.Path.{◌≡◌, refl, ap, sym, ◌∙◌}
use mathlib.Core.Logic.{inl, inr}
use mathlib.Core.Bool.{Bool, true, false, ◌||◌}
use mathlib.Core.List.{List, [], ◌∷◌, ◌++◌}
use mathlib.Core.Option.{none, some}
use native.Mathlib.Omega.{arith}
use abyss_backend.Common.Tests.{Option-cases}
use abyss_backend.Common.Lists.{length, get_elem?, take, drop, any, rposition}

-- The list around the last element at which a test holds.
pub record Split {ℓ} {A : Type ℓ} (p : A → Bool) (xs : List A) (i : ℕ) : Type ℓ where
  pub before : List A
  pub here : A
  pub after : List A
  pub whole : xs ≡ before ++ here ∷ after
  pub length_before : length before ≡ i
  pub holds : p here ≡ true
  pub none_after : any p after ≡ false

module _ {ℓ} {A : Type ℓ} (p : A → Bool) where
  pub rposition-none : (xs : List A) → rposition p xs ≡ none → any p xs ≡ false
  rposition-none [] h = refl
  rposition-none (x ∷ xs) h = elim (Option-cases (rposition p xs)) [
    | inl e ↦ ground (arith, rposition-none xs e)
    | inr (i, e) ↦ absurd (ground arith)
  ]

  pub rposition-Split : (xs : List A) (i : ℕ) → rposition p xs ≡ some i → Split p xs i
  rposition-Split [] i h = cc
  rposition-Split (x ∷ xs) i h = elim (Option-cases (rposition p xs)) [
    | inl e ↦ record {
      before = [];
      here = x;
      after = xs;
      whole = refl;
      length_before = ground arith;
      holds = ground arith;
      none_after = rposition-none xs e;
    }
    | inr (j, e) ↦
        let s = rposition-Split xs j e in
        record {
          before = x ∷ s.before;
          here = s.here;
          after = s.after;
          whole = ap (λ ys. x ∷ ys) s.whole;
          length_before = ground (arith, s.length_before);
          holds = s.holds;
          none_after = s.none_after;
        }
  ]

  pub rposition-of_none : (xs : List A) → any p xs ≡ false → rposition p xs ≡ none
  rposition-of_none [] h = refl
  rposition-of_none (x ∷ xs) h = ground (arith, rposition-of_none xs)

  pub rposition-of_split :
      (before : List A) (x : A) (after : List A)
      → p x ≡ true
      → any p after ≡ false
      → rposition p (before ++ x ∷ after) ≡ some (length before)
  rposition-of_split [] x after h k = ground (arith, rposition-of_none after k)
  rposition-of_split (b ∷ before) x after h k = rw (rposition-of_split before x after h k)

module _ {ℓ} {A : Type ℓ} where
  pub drop-append : (before after : List A) → drop (length before) (before ++ after) ≡ after
  drop-append [] after = refl
  drop-append (b ∷ before) after = drop-append before after

  pub drop-suc-append :
      (before : List A) (x : A) (after : List A)
      → drop (suc (length before)) (before ++ x ∷ after) ≡ after
  drop-suc-append [] x after = refl
  drop-suc-append (b ∷ before) x after = drop-suc-append before x after

  pub take-append : (before after : List A) → take (length before) (before ++ after) ≡ before
  take-append [] after = refl
  take-append (b ∷ before) after = rw (take-append before after)

  pub take-suc-append :
      (before : List A) (x : A) (after : List A)
      → take (suc (length before)) (before ++ x ∷ after) ≡ before ++ x ∷ []
  take-suc-append [] x after = refl
  take-suc-append (b ∷ before) x after = ap (λ ys. b ∷ ys) (take-suc-append before x after)

  pub get_elem?-append_at :
      (before : List A) (x : A) (after : List A)
      → get_elem? (before ++ x ∷ after) (length before) ≡ some x
  get_elem?-append_at [] x after = refl
  get_elem?-append_at (b ∷ before) x after = get_elem?-append_at before x after

module _ {ℓ} {A : Type ℓ} {p : A → Bool} {xs : List A} {i : ℕ} where
  pub Split-drop : (s : Split p xs i) → drop (suc i) xs ≡ s.after
  Split-drop s = rw (s.whole, ← s.length_before) (drop-suc-append s.before s.here s.after)

  pub Split-take : (s : Split p xs i) → take i xs ≡ s.before
  Split-take s = rw (s.whole, ← s.length_before) (take-append s.before (s.here ∷ s.after))

  pub Split-take-suc : (s : Split p xs i) → take (suc i) xs ≡ s.before ++ s.here ∷ []
  Split-take-suc s = rw (s.whole, ← s.length_before) (take-suc-append s.before s.here s.after)

  pub Split-get_elem? : (s : Split p xs i) → get_elem? xs i ≡ some s.here
  Split-get_elem? s = rw (s.whole, ← s.length_before) (get_elem?-append_at s.before s.here s.after)

module _ {ℓ} {A : Type ℓ} where
  pub rposition-append_none :
      (p : A → Bool) (xs ys : List A) → any p ys ≡ false → rposition p (xs ++ ys) ≡ rposition p xs
  rposition-append_none p [] ys h = rposition-of_none p ys h
  rposition-append_none p (x ∷ xs) ys h = rw (rposition-append_none p xs ys h)

  pub rposition-lt : (p : A → Bool) (xs : List A) (i : ℕ) → rposition p xs ≡ some i → i < length xs
  rposition-lt p [] i h = absurd (cc)
  rposition-lt p (x ∷ xs) i h = elim (Option-cases (rposition p xs)) [
    | inl e ↦ ground arith
    | inr (j, e) ↦ ground (arith, rposition-lt p xs j e)
  ]

  pub drop-append_le :
      (n : ℕ) (xs ys : List A) → n ≤ length xs → drop n (xs ++ ys) ≡ drop n xs ++ ys
  drop-append_le zero xs ys h = refl
  drop-append_le (suc n) [] ys h = absurd (omega arith)
  drop-append_le (suc n) (x ∷ xs) ys h = drop-append_le n xs ys (omega arith)

  pub any-append : (p : A → Bool) (xs ys : List A) → any p (xs ++ ys) ≡ (any p xs || any p ys)
  any-append p [] ys = refl
  any-append p (x ∷ xs) ys = ground (arith, any-append p xs ys)

  pub get_elem?-drop : (n i : ℕ) (xs : List A) → get_elem? (drop n xs) i ≡ get_elem? xs (n + i)
  get_elem?-drop zero i xs = ap (get_elem? xs) (omega arith)
  get_elem?-drop (suc n) i [] = refl
  get_elem?-drop (suc n) i (x ∷ xs) =
      get_elem?-drop n i xs ∙ sym (ap (get_elem? (x ∷ xs)) (add-suc_left n i))
    where
      add-suc_left : (a b : ℕ) → suc a + b ≡ suc (a + b)
      add-suc_left a b = omega arith
