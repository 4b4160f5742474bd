-- ===== src/Usage/SessionList/Pages.antt =====
-- The pages of the session index (usage/session_list.rs).
use abyss_backend.Common.{
  ℕ, zero, suc, ◌+◌, ◌-◌, ◌*◌, ◌≤◌, min, false, ◌||◌, List, [], ◌∷◌, ◌≡◌, refl, ap, subst, ◌∙◌,
  arith, ltb, ◌==◌, nat_eq, length, take, drop, unwrap_or, ok, ok-injective,
}
use abyss_backend.Errors.Checks.{reject_if_iff}
use abyss_backend.Usage.SessionList.{
  SessionListQuery, ValidatedSessionListQuery, i64_max, max_page_size, validated, validate,
  SessionListResponse, new_response,
}

module _ {ℓ} {A : Type ℓ} where
  length-drop : (n : ℕ) (xs : List A) → length (drop n xs) ≡ length xs - n
  length-drop zero xs = omega arith
  length-drop (suc n) [] = omega arith
  length-drop (suc n) (x ∷ xs) = omega (arith, length-drop n xs)

  length-take : (n : ℕ) (xs : List A) → length (take n xs) ≡ min n (length xs)
  length-take zero xs = omega arith
  length-take (suc n) [] = omega arith
  length-take (suc n) (x ∷ xs) = omega (arith, length-take n xs)

page_end : (page page_size : ℕ) → 1 ≤ page → (page - 1) * page_size + page_size ≡ page * page_size
page_end zero page_size h = absurd (omega arith)
page_end (suc page) page_size h = ap (λ p. p * page_size + page_size) pred ∙ grind arith
  where
    pred : suc page - 1 ≡ page
    pred = omega arith

positive : (n : ℕ) → (n == 0) ≡ false → 1 ≤ n
positive n h = ground arith

in_range : (n : ℕ) → (n == 0 || ltb max_page_size n) ≡ false → (1 ≤ n) × (n ≤ max_page_size)
in_range n h = (ground arith, ground arith)

-- A page of the matching sessions `xs`, as a statement with the query's limit and offset gives it.
abbrev pub page_of {ℓ} : {A : Type ℓ} → ValidatedSessionListQuery → List A → SessionListResponse A
page_of query xs = new_response query (length xs) (take query.page_size (drop query.offset xs))

validated-has_more {ℓ} :
    {A : Type ℓ} (query : SessionListQuery) (page page_size : ℕ) (xs : List A)
    → 1 ≤ page
    → length xs ≤ i64_max
    → (page_of (validated query page page_size) xs).has_more ≡ ltb (page * page_size) (length xs)
unfolding new_response
validated-has_more query page page_size xs h k =
    let offset = min ((page - 1) * page_size) i64_max in
    ground (
      arith,
      length-take page_size (drop offset xs),
      length-drop offset xs,
      page_end page page_size h,
    )

-- An accepted query asks for a page from 1 on, of 1 to 100 sessions. Its answer says that there are
-- more exactly if more sessions match than the pages up to that one hold.
pub validate-has_more {ℓ} :
    {A : Type ℓ} (query : SessionListQuery) (valid : ValidatedSessionListQuery) (xs : List A)
    → validate query ≡ ok valid
    → length xs ≤ i64_max
    → (1 ≤ valid.page)
      × (1 ≤ valid.page_size)
      × (valid.page_size ≤ max_page_size)
      × ((page_of valid xs).has_more ≡ ltb (valid.page * valid.page_size) (length xs))
unfolding validate
validate-has_more query valid xs h k =
    let page = unwrap_or query.page 1 in
    let page_size = unwrap_or query.page_size 20 in
    let (ordered, h1) = (reject_if_iff _ _ _ _).0 h in
    let (from_one, h2) = (reject_if_iff _ _ _ _).0 h1 in
    let (sized, same) = (reject_if_iff _ _ _ _).0 h2 in
    let first = positive page from_one in
    let some_size = in_range page_size sized in
    subst
      (λ (v : ValidatedSessionListQuery).
        (1 ≤ v.page)
        × (1 ≤ v.page_size)
        × (v.page_size ≤ max_page_size)
        × ((page_of v xs).has_more ≡ ltb (v.page * v.page_size) (length xs)))
      (ok-injective (ok (validated query page page_size)) refl same)
      (first, some_size.0, some_size.1, validated-has_more query page page_size xs first k)
