-- ===== src/Streams/Timeline/Grouping.antt =====
-- The groups that `push_to` of timeline.rs makes: one for each key, with the indices of the key in
-- their order.
use mathlib.Core.List.{foldl, append_assoc, append-nil}
use abyss_backend.Common.{
  ℕ, Bool, false, ◌||◌, List, [], ◌∷◌, ◌++◌, map, ◌≡◌, refl, sym, ap, ◌∙◌, inl, inr, arith, ◌==◌,
  Eq, if◌then◌else◌, Bool-cases, ==-cases, ==_refl, ne→==, All, All-map, contains, Distinct, keep,
  lookup, unwrap_or,
}
use abyss_backend.Streams.Timeline.{push_to}

abbrev added : Bool → ℕ → List ℕ → List ℕ
added here i members = if here then members ++ i ∷ [] else members

module _ {ℓ} {K : Type ℓ} ⦃e : Eq K⦄ where
  abbrev pub keys : List (K × List ℕ) → List K
  keys groups = map (λ (g : K × List ℕ). g.0) groups

  -- The indices of a key, none where it has no group.
  abbrev indices : K → List (K × List ℕ) → List ℕ
  indices k groups = unwrap_or (lookup k groups) []

  contains-push_to :
      (k : K) (i : ℕ) (groups : List (K × List ℕ)) (j : K)
      → contains (keys (push_to k i groups)) j ≡ (contains (keys groups) j || k == j)
  unfolding push_to
  contains-push_to k i [] j = ground arith
  contains-push_to k i ((g, members) ∷ groups) j = elim (==-cases g k) [
    | inl (p, q) ↦ rw p (ground (arith, ap (λ x. x == j) q))
    | inr (p, q) ↦ rw p (ground (arith, contains-push_to k i groups j))
  ]

  push_to-Distinct :
      (k : K) (i : ℕ) (groups : List (K × List ℕ))
      → Distinct (keys groups)
      → Distinct (keys (push_to k i groups))
  unfolding push_to
  push_to-Distinct k i [] d = (refl, tt)
  push_to-Distinct k i ((g, members) ∷ groups) d = elim (==-cases g k) [
    | inl (p, q) ↦ rw p d
    | inr (p, q) ↦ rw p (
      contains-push_to k i groups g ∙ rw (d.0, ne→== k g (λ r. q (sym r))) refl,
      push_to-Distinct k i groups d.1,
    )
  ]

  indices-push_to :
      (k : K) (i : ℕ) (groups : List (K × List ℕ)) (j : K)
      → indices j (push_to k i groups) ≡ added (k == j) i (indices j groups)
  unfolding push_to
  indices-push_to k i [] j = elim (Bool-cases (k == j)) [ inl r ↦ rw r refl | inr r ↦ rw r refl ]
  indices-push_to k i ((g, members) ∷ groups) j = elim (==-cases g k) [
    | inl (p, q) ↦
        let same : (k == j) ≡ (g == j) = ap (λ x. x == j) (sym q) in
        elim (Bool-cases (g == j)) [
          | inl r ↦ rw p (rw same (rw r refl))
          | inr r ↦ rw p (rw same (rw r refl))
        ]
    | inr (p, q) ↦ elim (==-cases g j) [
      | inl (r, s) ↦ rw p (rw r (rw (ne→== k j (λ t. q (s ∙ sym t))) refl))
      | inr (r, s) ↦ rw p (rw r (indices-push_to k i groups j))
    ]
  ]

  -- A group holds the indices of its key.
  indices-own :
      (groups : List (K × List ℕ))
      → Distinct (keys groups)
      → All (λ (g : K × List ℕ). indices g.0 groups ≡ g.1) groups
  indices-own [] d = tt
  indices-own ((k, members) ∷ groups) d =
      (rw (==_refl k) refl, later groups d.0 (indices-own groups d.1))
    where
      later :
          (more : List (K × List ℕ))
          → contains (keys more) k ≡ false
          → All (λ (g : K × List ℕ). indices g.0 groups ≡ g.1) more
          → All (λ (g : K × List ℕ). indices g.0 ((k, members) ∷ groups) ≡ g.1) more
      later [] h a = tt
      later ((g, m) ∷ more) h a = elim (==-cases k g) [
        | inl (p, q) ↦ absurd (ground (arith, ap (λ x. x == k) (sym q), ==_refl k))
        | inr (p, q) ↦ (rw p a.0, later more (ground arith) a.1)
      ]

  module _ (key : ℕ → K) where
    abbrev pub grouped_from : List (K × List ℕ) → List ℕ → List (K × List ℕ)
    grouped_from = foldl (λ groups i. push_to (key i) i groups)

    abbrev pub of_key : K → List ℕ → List ℕ
    of_key k = keep (λ i. key i == k)

    grouped_from-Distinct :
        (is : List ℕ) (groups : List (K × List ℕ))
        → Distinct (keys groups)
        → Distinct (keys (grouped_from groups is))
    grouped_from-Distinct [] groups d = d
    grouped_from-Distinct (i ∷ is) groups d =
        grouped_from-Distinct is (push_to (key i) i groups) (push_to-Distinct (key i) i groups d)

    contains-grouped_from :
        (is : List ℕ) (groups : List (K × List ℕ)) (j : K)
        → contains (keys (grouped_from groups is)) j
          ≡ (contains (keys groups) j || contains (map key is) j)
    contains-grouped_from [] groups j = ground arith
    contains-grouped_from (i ∷ is) groups j =
        contains-grouped_from is (push_to (key i) i groups) j
        ∙ rw (contains-push_to (key i) i groups j) (ground arith)

    indices-grouped_from :
        (is : List ℕ) (groups : List (K × List ℕ)) (j : K)
        → indices j (grouped_from groups is) ≡ indices j groups ++ of_key j is
    indices-grouped_from [] groups j = sym (append-nil (indices j groups))
    indices-grouped_from (i ∷ is) groups j =
        indices-grouped_from is (push_to (key i) i groups) j
        ∙ ap (λ m. m ++ of_key j is) (indices-push_to (key i) i groups j)
        ∙ elim (Bool-cases (key i == j)) [
          | inl r ↦ rw r (append_assoc (indices j groups) (i ∷ []) (of_key j is))
          | inr r ↦ rw r refl
        ]

    -- Each key has one group, which holds all its indices.
    pub grouped-Distinct : (is : List ℕ) → Distinct (keys (grouped_from [] is))
    grouped-Distinct is = grouped_from-Distinct is [] tt

    pub contains-grouped :
        (is : List ℕ) (j : K) → contains (keys (grouped_from [] is)) j ≡ contains (map key is) j
    contains-grouped is j = contains-grouped_from is [] j

    pub grouped-members :
        (is : List ℕ) → All (λ (g : K × List ℕ). g.1 ≡ of_key g.0 is) (grouped_from [] is)
    grouped-members is =
        All-map (λ (g : K × List ℕ). indices g.0 (grouped_from [] is) ≡ g.1)
          (λ (g : K × List ℕ). g.1 ≡ of_key g.0 is) (grouped_from [] is)
          (λ g own. sym own ∙ indices-grouped_from is [] g.0)
          (indices-own (grouped_from [] is) (grouped-Distinct is))
