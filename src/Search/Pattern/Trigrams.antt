-- ===== src/Search/Pattern/Trigrams.antt =====
-- The trigrams of `Pattern::trigram_expression` in pattern.rs, and the texts that match.
use mathlib.Core.List.{append_assoc}
use abyss_backend.Common.{
  ℕ, true, not, List, [], ◌∷◌, ◌++◌, ◌≡◌, refl, sym, ap, ◌∙◌, inl, inr, ◌==◌, nat_eq, list_eq,
  arith, length, drop, contains, leb, All, All-map, All-keep, Bool-cases, ==→eq, ==_refl,
  and-eq-true,
}
use abyss_backend.Search.Text.{Text, starts_with, holds}
use abyss_backend.Search.Text.Characters.{take-drop}
use abyss_backend.Search.Pattern.{
  windows, distinct, trigram_characters, trigrams, fold, new, matches,
}

-- `pattern` is a part of `text`.
pub record Part (pattern text : Text) : Type 0 where
  pub before : Text
  pub after : Text
  pub whole : text ≡ before ++ (pattern ++ after)

pub starts_with-append : (pattern after : Text) → starts_with pattern (pattern ++ after) ≡ true
starts_with-append [] after = refl
starts_with-append (p ∷ pattern) after = rw (==_refl p) (starts_with-append pattern after)

pub starts_with-Part :
    (pattern text : Text)
    → starts_with pattern text ≡ true
    → (after : Text) × (text ≡ pattern ++ after)
starts_with-Part [] text h = (text, refl)
starts_with-Part (p ∷ pattern) [] h = absurd (cc)
starts_with-Part (p ∷ pattern) (c ∷ text) h =
    let (same, rest) = and-eq-true (p == c) (starts_with pattern text) h in
    let (after, e) = starts_with-Part pattern text rest in (after, cc (==→eq p c same, e))

pub holds-append :
    (before pattern after : Text) → holds pattern (before ++ (pattern ++ after)) ≡ true
holds-append (b ∷ before) pattern after = ground (arith, holds-append before pattern after)
holds-append [] [] [] = refl
holds-append [] [] (a ∷ after) = refl
holds-append [] (p ∷ pattern) after = ground (arith, starts_with-append (p ∷ pattern) after)

pub holds-Part : (pattern text : Text) → holds pattern text ≡ true → Part pattern text
holds-Part pattern [] h =
    let (after, e) = starts_with-Part pattern [] h in
    record { before = []; after = after; whole = e }
holds-Part pattern (c ∷ text) h = elim (Bool-cases (starts_with pattern (c ∷ text))) [
  | inl p ↦
      let (after, e) = starts_with-Part pattern (c ∷ text) p in
      record { before = []; after = after; whole = e }
  | inr q ↦
      let rest = holds-Part pattern text (ground (arith, h, q)) in
      record { before = c ∷ rest.before; after = rest.after; whole = ap (λ t. c ∷ t) rest.whole }
]

windows-Part : (n : ℕ) (text : Text) → All (λ t. Part t text) (windows n text)
unfolding windows
windows-Part n [] = tt
windows-Part n (c ∷ text) =
    let further : (t : Text) → Part t text → Part t (c ∷ text) = λ t part. record {
      before = c ∷ part.before;
      after = part.after;
      whole = ap (λ t. c ∷ t) part.whole;
    } in
    let rest =
      All-map (λ t. Part t text) (λ t. Part t (c ∷ text)) (windows n text) further
        (windows-Part n text) in
    elim (Bool-cases (leb n (length (c ∷ text)))) [
      | inl p ↦
          rw p (
            record { before = []; after = drop n (c ∷ text); whole = take-drop n (c ∷ text) },
            rest,
          )
      | inr q ↦ rw q rest
    ]

distinct-All {ℓ} : (P : Text → Type ℓ) (seen ts : List Text) → All P ts → All P (distinct seen ts)
unfolding distinct
distinct-All P seen [] h = tt
distinct-All P seen (t ∷ ts) h = elim (Bool-cases (contains seen t)) [
  | inl p ↦ rw p (distinct-All P seen ts h.1)
  | inr q ↦ rw q (h.0, distinct-All P (t ∷ seen) ts h.1)
]

Part-trans : (a b c : Text) → Part a b → Part b c → Part a c
Part-trans a b c p q = record {
  before = q.before ++ p.before;
  after = p.after ++ q.after;
  whole =
      q.whole
      ∙ ap (λ t. q.before ++ (t ++ q.after)) p.whole
      ∙ ap (λ t. q.before ++ t) (append_assoc p.before (a ++ p.after) q.after)
      ∙ ap (λ t. q.before ++ (p.before ++ t)) (append_assoc a p.after q.after)
      ∙ sym (append_assoc q.before p.before (a ++ (p.after ++ q.after)));
}

pub Part-holds : (pattern text : Text) → Part pattern text → holds pattern text ≡ true
Part-holds pattern text p = rw p.whole (holds-append p.before pattern p.after)

-- Every trigram of the expression for a query is in every text that the query matches: the
-- candidates that the expression keeps lose no hit.
pub trigrams-holds :
    (to_lowercase : ℕ → List ℕ) (query text : Text)
    → matches to_lowercase (new to_lowercase query) text ≡ true
    → All (λ t. holds t (fold to_lowercase text) ≡ true) (trigrams (fold to_lowercase query))
unfolding matches new trigrams
trigrams-holds to_lowercase query text h =
    let whole = holds-Part (fold to_lowercase query) (fold to_lowercase text) h in
    distinct-All _ [] _ (
      All-keep _ (λ t. not (contains t 0)) (windows trigram_characters (fold to_lowercase query))
        (All-map (λ t. Part t (fold to_lowercase query))
          (λ t. holds t (fold to_lowercase text) ≡ true)
          (windows trigram_characters (fold to_lowercase query))
          (λ t part.
            Part-holds t (fold to_lowercase text)
              (Part-trans t (fold to_lowercase query) (fold to_lowercase text) part whole))
          (windows-Part trigram_characters (fold to_lowercase query))))
