-- ===== src/Streams/Timeline/Stack.antt =====
-- The stack of `started_first` in timeline.rs: one run of it.
use abyss_backend.Common.{
  ℕ, zero, suc, ◌+◌, ◌*◌, ◌<◌, ◌≤◌, Bool, true, false, not, ◌&&◌, List, [], ◌∷◌, ◌++◌, Option, none,
  some, ◌≡◌, refl, sym, ◌∙◌, inl, inr, ◌==◌, nat_eq, option_eq, ==-cases, ==_refl, Bool-cases,
  arith, length, length-append, length-set, length-range, get_or, set, get_or-set_self,
  get_or-set_ne, All, All-append, All-keep, keep, range, contains, contains-append, Distinct,
  Distinct-snoc,
}
use abyss_backend.Streams.Timeline.{Placing, waiting, drain}

length-keep-le {ℓ} : {A : Type ℓ} (p : A → Bool) (xs : List A) → length (keep p xs) ≤ length xs
length-keep-le p [] = omega arith
length-keep-le p (x ∷ xs) = ground (arith, length-keep-le p xs)

range-All : (from n top : ℕ) → from + n ≤ top → All (λ i. i < top) (range from n)
range-All from zero top h = tt
range-All from (suc n) top h = (omega arith, range-All (suc from) n top (omega arith))

-- What the executors that are not placed may still push.
unfoldable pub debt : ℕ → List Bool → ℕ
debt n [] = 0
debt n (true ∷ placed) = debt n placed
debt n (false ∷ placed) = n + debt n placed

debt-set :
    (n : ℕ) (placed : List Bool) (i : ℕ)
    → i < length placed
    → get_or placed i false ≡ false
    → debt n (set placed i true) + n ≡ debt n placed
unfolding debt
debt-set n [] i h e = elim h [ ]
debt-set n (true ∷ placed) zero h e = absurd (cc)
debt-set n (false ∷ placed) zero h e = omega arith
debt-set n (true ∷ placed) (suc i) h e = debt-set n placed i (omega arith) e
debt-set n (false ∷ placed) (suc i) h e = omega (arith, debt-set n placed i (omega arith) e)

pub debt-le : (n : ℕ) (placed : List Bool) → debt n placed ≤ length placed * n
unfolding debt
debt-le n [] = omega arith
debt-le n (true ∷ placed) = grind (arith, debt-le n placed)
debt-le n (false ∷ placed) = grind (arith, debt-le n placed)

module _ (parents : List (Option ℕ)) where
  abbrev pub n : ℕ
  n = length parents

  pub record Inv (s : Placing) : Type 0 where
    pub sized : length s.placed ≡ n
    pub distinct : Distinct s.order
    pub agree : (i : ℕ) → get_or s.placed i false ≡ contains s.order i
    pub bounded : All (λ i. i < n) s.order

  -- What a run of the stack adds: nothing placed is lost, and all of the stack is placed.
  pub record Placed (stack : List ℕ) (s t : Placing) : Type 0 where
    pub inv : Inv t
    pub grows : (i : ℕ) → get_or s.placed i false ≡ true → get_or t.placed i false ≡ true
    pub all : All (λ i. get_or t.placed i false ≡ true) stack

  waiting-bounded : (next : ℕ) (placed : List Bool) → All (λ i. i < n) (waiting parents next placed)
  waiting-bounded next placed = All-keep (λ i. i < n) _ (range 0 n) (range-All 0 n n (omega arith))

  length-waiting : (next : ℕ) (placed : List Bool) → length (waiting parents next placed) ≤ n
  length-waiting next placed = omega (
    arith,
    length-keep-le
        (λ child. get_or parents child none == some next && not (get_or placed child false))
        (range 0 n),
    length-range 0 n,
  )

  visit : ℕ → Placing → Placing
  visit next s = record { order = s.order ++ next ∷ []; placed = set s.placed next true }

  visit-Inv :
      (next : ℕ) (s : Placing)
      → next < n
      → get_or s.placed next false ≡ false
      → Inv s
      → Inv (visit next s)
  unfolding visit
  visit-Inv next s lt e v = record {
    sized = length-set s.placed next true ∙ v.sized;
    distinct = Distinct-snoc s.order next v.distinct (sym (v.agree next) ∙ e);
    agree = λ i. elim (==-cases next i) [
      | inl (p, q) ↦ rw (← q) (
          get_or-set_self s.placed next true false (omega (arith, v.sized))
          ∙ sym (contains-append s.order (next ∷ []) next ∙ ground (arith, ==_refl {A = ℕ} next)))
      | inr (p, q) ↦
          get_or-set_ne s.placed next i true false q
          ∙ v.agree i
          ∙ sym (contains-append s.order (next ∷ []) i ∙ ground (arith))
    ];
    bounded = All-append (λ i. i < n) s.order (next ∷ []) v.bounded (lt, tt);
  }

  drain-nil : (fuel : ℕ) (s : Placing) → drain fuel parents [] s ≡ some s
  unfolding drain
  drain-nil zero s = refl
  drain-nil (suc fuel) s = refl

  drain-skip :
      (fuel next : ℕ) (stack : List ℕ) (s : Placing)
      → get_or s.placed next false ≡ true
      → drain (suc fuel) parents (next ∷ stack) s ≡ drain fuel parents stack s
  unfolding drain
  drain-skip fuel next stack s e = rw e

  drain-visit :
      (fuel next : ℕ) (stack : List ℕ) (s : Placing)
      → get_or s.placed next false ≡ false
      → drain (suc fuel) parents (next ∷ stack) s
        ≡ drain fuel parents (waiting parents next (set s.placed next true) ++ stack) (visit next s)
  unfolding drain visit
  drain-visit fuel next stack s e = rw e

  visit-grows :
      (next i : ℕ) (s : Placing)
      → next < length s.placed
      → get_or s.placed i false ≡ true
      → get_or (visit next s).placed i false ≡ true
  unfolding visit
  visit-grows next i s lt h = elim (==-cases next i) [
    | inl (_, q) ↦ rw (← q) (get_or-set_self s.placed next true false lt)
    | inr (_, q) ↦ get_or-set_ne s.placed next i true false q ∙ h
  ]

  visit_self :
      (next : ℕ) (s : Placing)
      → next < length s.placed
      → get_or (visit next s).placed next false ≡ true
  unfolding visit
  visit_self next s lt = get_or-set_self s.placed next true false lt

  All-right : (P : ℕ → Type 0) (xs ys : List ℕ) → All P (xs ++ ys) → All P ys
  All-right P [] ys h = h
  All-right P (x ∷ xs) ys h = All-right P xs ys h.1

  pub drain-Placed :
      (fuel : ℕ) (stack : List ℕ) (s : Placing)
      → Inv s
      → All (λ i. i < n) stack
      → length stack + debt n s.placed ≤ fuel
      → (t : Placing) × (drain fuel parents stack s ≡ some t) × Placed stack s t
  drain-Placed fuel [] s v b h =
      (s, drain-nil fuel s, record { inv = v; grows = λ i e. e; all = tt })
  drain-Placed zero (next ∷ stack) s v b h = absurd (omega arith)
  drain-Placed (suc fuel) (next ∷ stack) s v b h = elim (Bool-cases (get_or s.placed next false)) [
    | inl e ↦
        let (t, r, p) = drain-Placed fuel stack s v b.1 (omega arith) in
        (
          t,
          drain-skip fuel next stack s e ∙ r,
          record { inv = p.inv; grows = p.grows; all = (p.grows next e, p.all) },
        )
    | inr e ↦
        let below = waiting parents next (set s.placed next true) in
        let lt : next < length s.placed = omega (arith, v.sized, b.0) in
        let (t, r, p) =
          drain-Placed fuel (below ++ stack) (visit next s) (visit-Inv next s b.0 e v)
            (All-append (λ i. i < n) below stack (waiting-bounded next (set s.placed next true))
              b.1)
            (unfold visit in
              omega (
                arith,
                length-append below stack,
                length-waiting next (set s.placed next true),
                debt-set n s.placed next lt e,
              )) in
        (
          t,
          drain-visit fuel next stack s e ∙ r,
          record {
            inv = p.inv;
            grows = λ i q. p.grows i (visit-grows next i s lt q);
            all = (
              p.grows next (visit_self next s lt),
              All-right (λ i. get_or t.placed i false ≡ true) below stack p.all,
            );
          },
        )
  ]
