-- ===== src/Search/Query/Lists.antt =====
-- The normalized filters of a search query (search/mod.rs).
use abyss_backend.Common.{
  ℕ, Bool, true, false, ◌||◌, String, List, [], ◌∷◌, map, ◌≡◌, refl, sym, ap, subst, ◌∙◌, inl, inr,
  arith, ◌==◌, nat_eq, list_eq, Bool-cases, ==-cases, ne→==, All, All-map, contains, contains-Perm,
  Distinct, sort_by, sort_by-perm, sort_by-Sorted, Sorted, ok, Result-cases, ok-injective,
  ok-ne-err, traverse, traverse-cons,
}
use mathlib.Core.List.Perm
use abyss_backend.Search.Text.{Text}
use abyss_backend.Search.Text.Trimming.{trim}
use abyss_backend.Search.Text.Ordering.{text_le, text_le_total, text_le_trans, text_le_antisymm}
use abyss_backend.Search.Query.{normalized_required, normalized_list, dedup, dedup_after}

All-dedup_after {κ} :
    (P : Text → Type κ) (last : Text) (texts : List Text)
    → All P texts
    → All P (dedup_after last texts)
unfolding dedup_after
All-dedup_after P last [] h = tt
All-dedup_after P last (text ∷ texts) h = elim (Bool-cases (last == text)) [
  | inl e ↦ rw e (All-dedup_after P last texts h.1)
  | inr e ↦ rw e (h.0, All-dedup_after P text texts h.1)
]

Sorted-dedup_after :
    (last : Text) (texts : List Text)
    → Sorted text_le texts
    → Sorted text_le (dedup_after last texts)
unfolding dedup_after
Sorted-dedup_after last [] h = tt
Sorted-dedup_after last (text ∷ texts) h = elim (Bool-cases (last == text)) [
  | inl e ↦ rw e (Sorted-dedup_after last texts h.1)
  | inr e ↦ rw e (
    All-dedup_after (λ y. text_le text y ≡ true) text texts h.0,
    Sorted-dedup_after text texts h.1,
  )
]

absent-All : (t : Text) (texts : List Text) → All (λ y. y ≡ t → ⊥) texts → contains texts t ≡ false
absent-All t [] h = refl
absent-All t (y ∷ texts) h = rw (ne→== y t h.0) (absent-All t texts h.1)

-- Of a sorted list above `last`, no text that is kept is `last`.
dedup_after-new :
    (last : Text) (texts : List Text)
    → All (λ y. text_le last y ≡ true) texts
    → Sorted text_le texts
    → All (λ y. y ≡ last → ⊥) (dedup_after last texts)
unfolding dedup_after
dedup_after-new last [] h s = tt
dedup_after-new last (text ∷ texts) h s = elim (==-cases last text) [
  | inl (e, q) ↦ rw e (dedup_after-new last texts h.1 s.1)
  | inr (e, q) ↦ rw e (
    (λ p. q (sym p)),
    All-map (λ y. text_le text y ≡ true) (λ y. y ≡ last → ⊥) (dedup_after text texts)
        (λ y above p.
          q (text_le_antisymm last text h.0 (subst (λ z. text_le text z ≡ true) p above)))
        (All-dedup_after (λ y. text_le text y ≡ true) text texts s.0),
  )
]

Distinct-dedup_after :
    (last : Text) (texts : List Text) → Sorted text_le texts → Distinct (dedup_after last texts)
unfolding dedup_after
Distinct-dedup_after last [] s = tt
Distinct-dedup_after last (text ∷ texts) s = elim (Bool-cases (last == text)) [
  | inl e ↦ rw e (Distinct-dedup_after last texts s.1)
  | inr e ↦ rw e (
    absent-All text (dedup_after text texts) (dedup_after-new text texts s.0 s.1),
    Distinct-dedup_after text texts s.1,
  )
]

contains-dedup_after :
    (last : Text) (texts : List Text) (t : Text)
    → contains (last ∷ dedup_after last texts) t ≡ contains (last ∷ texts) t
unfolding dedup_after
contains-dedup_after last [] t = refl
contains-dedup_after last (text ∷ texts) t = elim (==-cases last text) [
  | inl (e, q) ↦ rw e (
      contains-dedup_after last texts t
      ∙ absorb (last == t) (text == t) (contains texts t) (ap (λ z. z == t) q))
  | inr (e, q) ↦ rw e (ap (λ b. last == t || b) (contains-dedup_after text texts t))
]
  where
    absorb : (a b c : Bool) → a ≡ b → (a || c) ≡ (a || (b || c))
    absorb a b c h = ground arith

-- What `sort` and `dedup` make of a list.
dedup_lem :
    (texts : List Text)
    → Sorted text_le texts
    → Sorted text_le (dedup texts)
      × Distinct (dedup texts)
      × ((t : Text) → contains (dedup texts) t ≡ contains texts t)
unfolding dedup
dedup_lem [] s = (tt, tt, (λ t. refl))
dedup_lem (text ∷ texts) s = (
  (All-dedup_after (λ y. text_le text y ≡ true) text texts s.0, Sorted-dedup_after text texts s.1),
  (
    absent-All text (dedup_after text texts) (dedup_after-new text texts s.0 s.1),
    Distinct-dedup_after text texts s.1,
  ),
  (λ t. contains-dedup_after text texts t),
)

required-trim :
    (value : Text) (field : String) (maximum : ℕ) (v : Text)
    → normalized_required value field maximum ≡ ok v
    → trim value ≡ v
unfolding normalized_required
required-trim value field maximum v h = ground arith

traverse-trim :
    (values : List Text) (field : String) (maximum : ℕ) (vs : List Text)
    → traverse (λ value. normalized_required value field maximum) values ≡ ok vs
    → map trim values ≡ vs
traverse-trim [] field maximum vs h = cc
traverse-trim (value ∷ values) field maximum vs h =
    let (v, more, e, f, whole) =
      traverse-cons (λ w. normalized_required w field maximum) value values h in
    cc (required-trim value field maximum v e, traverse-trim values field maximum more f, whole)

contains-sort :
    (texts : List Text) (t : Text) → contains (sort_by text_le texts) t ≡ contains texts t
contains-sort texts t = elim (Bool-cases (contains texts t)) [
  | inl e ↦ contains-Perm t texts (sort_by text_le texts) (sort_by-perm text_le texts) e ∙ sym e
  | inr e ↦ elim (Bool-cases (contains (sort_by text_le texts) t)) [
    | inl f ↦ absurd (
        let g =
          contains-Perm t (sort_by text_le texts) texts (Perm.symm (sort_by-perm text_le texts))
            f in
        cc)
    | inr f ↦ f ∙ sym e
  ]
]

-- What `sort_unstable` and `dedup` make of any list.
pub dedup-sort :
    (texts : List Text)
    → Sorted text_le (dedup (sort_by text_le texts))
      × Distinct (dedup (sort_by text_le texts))
      × ((t : Text) → contains (dedup (sort_by text_le texts)) t ≡ contains texts t)
dedup-sort texts =
    let (s, d, c) =
      dedup_lem (sort_by text_le texts)
        (sort_by-Sorted text_le text_le_total text_le_trans texts) in
    (s, d, (λ t. c t ∙ contains-sort texts t))

-- An accepted list of filters becomes the trimmed values in ascending order, each once.
pub normalized_list-Sorted :
    (values : List Text) (field : String) (normalized : List Text)
    → normalized_list values field ≡ ok normalized
    → Sorted text_le normalized
      × Distinct normalized
      × ((t : Text) → contains normalized t ≡ contains (map trim values) t)
unfolding normalized_list
normalized_list-Sorted values field normalized h =
    elim (Result-cases (traverse (λ value. normalized_required value field 256) values)) [
      | inr (error, e) ↦ absurd (ok-ne-err (normalized_list values field) error h (rw e refl))
      | inl (vs, e) ↦
          let same : dedup (sort_by text_le vs) ≡ normalized =
            ok-injective (normalized_list values field) (rw e refl) h in
          let trimmed = traverse-trim values field 256 vs e in
          let (s, d, c) = dedup-sort vs in
          subst
            (λ result.
              Sorted text_le result
              × Distinct result
              × ((t : Text) → contains result t ≡ contains (map trim values) t))
            same (s, d, (λ t. c t ∙ ap (λ ts. contains ts t) (sym trimmed)))
    ]
