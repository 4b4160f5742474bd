-- ===== src/Streams/Timeline/Order.antt =====
-- The loops of `started_first` in timeline.rs.
use abyss_backend.Streams.Timeline.Stack.{Inv, drain-Placed, debt, debt-le}
use abyss_backend.Common.{
  ℕ, zero, suc, ◌+◌, ◌<◌, ◌≤◌, Bool, true, false, ◌&&◌, ◌||◌, List, [], ◌∷◌, Option, none, some,
  ◌≡◌, refl, sym, ap, ◌∙◌, inl, inr, nat_eq, option_eq, ==-cases, Bool-cases, arith, length,
  length-replicate, get_or, replicate, All, contains, Distinct, is_some, for_range, for_range_rule,
}
use abyss_backend.Streams.Timeline.{Placing, drain, enough_fuel, enter, depth_first}

module _ (parents : List (Option ℕ)) where
  abbrev n : ℕ
  n = length parents

  -- The passes: after `count` indices of the second one, the first `count` executors are placed.
  record Passed (full : Bool) (count : ℕ) (state : Option Placing) : Type 0 where
    pub result : Placing
    pub is : state ≡ some result
    pub inv : Inv parents result
    pub placed : full ≡ true → (i : ℕ) → i < count → get_or result.placed i false ≡ true

  enough : (s : Placing) → Inv parents s → 1 + debt n s.placed ≤ enough_fuel parents
  enough s v = grind (arith, debt-le n s.placed, v.sized)

  enter-drain :
      (top_only : Bool) (index : ℕ) (s : Placing)
      → (get_or s.placed index false || top_only && is_some (get_or parents index none)) ≡ false
      → enter parents top_only index (some s) ≡ drain (enough_fuel parents) parents (index ∷ []) s
  unfolding enter
  enter-drain top_only index s e = rw e

  enter-skip :
      (top_only : Bool) (index : ℕ) (s : Placing)
      → (get_or s.placed index false || top_only && is_some (get_or parents index none)) ≡ true
      → enter parents top_only index (some s) ≡ some s
  unfolding enter
  enter-skip top_only index s e = rw e

  enter-Passed :
      (full top_only : Bool) (index : ℕ) (state : Option Placing)
      → (full ≡ true → top_only ≡ false)
      → index < n
      → Passed full index state
      → Passed full (suc index) (enter parents top_only index state)
  enter-Passed full top_only index state only lt p =
      let s = p.result in
      elim (Bool-cases
        (get_or s.placed index false || top_only && is_some (get_or parents index none))) [
          | inl e ↦ record {
            result = s;
            is = ap (enter parents top_only index) p.is ∙ enter-skip top_only index s e;
            inv = p.inv;
            placed = λ q i h. elim (==-cases i index) [
              | inl (_, r) ↦ rw r (ground (arith, only q))
              | inr (_, r) ↦ p.placed q i (omega arith)
            ];
          }
          | inr e ↦
              let (t, r, d) =
                drain-Placed parents (enough_fuel parents) (index ∷ []) s p.inv (lt, tt)
                  (omega (arith, enough s p.inv)) in
              record {
                result = t;
                is = ap (enter parents top_only index) p.is ∙ enter-drain top_only index s e ∙ r;
                inv = d.inv;
                placed = λ q i h. elim (==-cases i index) [
                  | inl (_, same) ↦ rw same (d.all.0)
                  | inr (_, other) ↦ d.grows i (p.placed q i (omega arith))
                ];
              }
        ]

  start : Placing
  start = record { order = []; placed = replicate n false }

  get_or-replicate : (m i : ℕ) → get_or (replicate m false) i false ≡ false
  get_or-replicate zero i = refl
  get_or-replicate (suc m) zero = refl
  get_or-replicate (suc m) (suc i) = get_or-replicate m i

  start-Inv : Inv parents start
  unfolding start
  start-Inv = record {
    sized = length-replicate n false;
    distinct = tt;
    agree = λ i. get_or-replicate n i;
    bounded = tt;
  }

  first_pass : Passed false n (for_range (enter parents true) 0 n (some start))
  first_pass =
      for_range_rule (Passed false) (enter parents true) n
        (λ i state lt p. enter-Passed false true i state (λ q. cc) lt p) (some start)
        (record { result = start; is = refl; inv = start-Inv; placed = λ q. cc })

  second_pass :
      Passed true n
        (for_range (enter parents false) 0 n (for_range (enter parents true) 0 n (some start)))
  second_pass =
      let p = first_pass in
      for_range_rule (Passed true) (enter parents false) n
        (λ i state lt q. enter-Passed true false i state (λ e. refl) lt q) _
        (record {
          result = p.result;
          is = p.is;
          inv = p.inv;
          placed = λ q i lt. absurd (omega arith);
        })

  -- The order is a list of all the indices, each once.
  pub record Listing (order : List ℕ) : Type 0 where
    pub distinct : Distinct order
    pub complete : (i : ℕ) → i < n → contains order i ≡ true
    pub bounded : All (λ i. i < n) order

  -- The loops of `started_first` end within their fuel, whatever the declared parents are, cycles
  -- included, and the order they leave lists every executor exactly once.
  pub depth_first-Listing : (s : Placing) × (depth_first parents ≡ some s) × Listing s.order
  unfolding depth_first start
  depth_first-Listing =
      let p = second_pass in
      (
        p.result,
        p.is,
        record {
          distinct = p.inv.distinct;
          complete = λ i h. sym (p.inv.agree i) ∙ p.placed refl i h;
          bounded = p.inv.bounded;
        },
      )
