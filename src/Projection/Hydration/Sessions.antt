-- ===== src/Projection/Hydration/Sessions.antt =====
-- Which sessions a response shows (storage/postgres/search/mod.rs).
use abyss_backend.Common.{
  without, lookup-without, ℕ, ◌&&◌, List, [], ◌∷◌, map, some, ◌≡◌, refl, ap, ◌∙◌, inl, inr, arith,
  ◌==◌, nat_eq, Bool-cases, Option-cases, ==-cases, lookup, contains, Distinct, All, is_some,
}
use abyss_backend.Projection.Page.{SessionMatches}
use abyss_backend.Projection.Hydration.{
  Details, SearchSessionDetails, SessionSearchResult, search_result, hydrate_sessions,
}

-- The key of each entry is the id of its session.
abbrev pub IsKeyed : Details → Type 0
IsKeyed details = All (λ (entry : ℕ × SearchSessionDetails). entry.0 ≡ entry.1.id) details

lookup-IsKeyed :
    (details : Details) (key : ℕ) (found : SearchSessionDetails)
    → IsKeyed details
    → lookup key details ≡ some found
    → found.id ≡ key
lookup-IsKeyed [] key found k h = cc
lookup-IsKeyed ((other, value) ∷ details) key found k h = elim (==-cases other key) [
  | inl (p, q) ↦ ground (arith, k.0, q)
  | inr (p, q) ↦ lookup-IsKeyed details key found k.1 (ground arith)
]

without-IsKeyed : (key : ℕ) (details : Details) → IsKeyed details → IsKeyed (without key details)
without-IsKeyed key [] k = tt
without-IsKeyed key ((other, value) ∷ details) k = elim (Bool-cases (other == key)) [
  | inl e ↦ rw e (without-IsKeyed key details k.1)
  | inr e ↦ rw e (k.0, without-IsKeyed key details k.1)
]

abbrev pub result_keys : List SessionSearchResult → List ℕ
result_keys items = map (λ (item : SessionSearchResult). item.session_pk) items

abbrev pub session_keys : List SessionMatches → List ℕ
session_keys sessions = map (λ (matches : SessionMatches). matches.session_pk) sessions

search_result-key :
    (matches : SessionMatches) (details : SearchSessionDetails)
    → (search_result matches details).session_pk ≡ details.id
unfolding search_result
search_result-key matches details = refl

shown_sessions :
    (details : Details) (sessions : List SessionMatches) (id : ℕ)
    → IsKeyed details
    → contains (result_keys (hydrate_sessions details sessions)) id
      ≡ (contains (session_keys sessions) id && is_some (lookup id details))
unfolding hydrate_sessions
shown_sessions details [] id k = refl
shown_sessions details (matches ∷ sessions) id k =
    let key = matches.session_pk in
    let rest = shown_sessions (without key details) sessions id (without-IsKeyed key details k) in
    let left = lookup-without key id details in
    elim (Option-cases (lookup key details)) [
      | inl gone ↦ rw gone (elim (==-cases key id) [
        | inl (p, q) ↦ ground (arith, rest, left, ap (λ (i : ℕ). lookup i details) q)
        | inr (p, q) ↦ ground (arith, rest, left)
      ])
      | inr (found, here) ↦
          let same : (search_result matches found).session_pk ≡ key =
            search_result-key matches found ∙ lookup-IsKeyed details key found k here in
          rw here (elim (==-cases key id) [
            | inl (p, q) ↦ ground (arith, rest, left, same, ap (λ (i : ℕ). lookup i details) q)
            | inr (p, q) ↦ ground (arith, rest, left, same)
          ])
    ]

hydrate_sessions-Distinct :
    (details : Details) (sessions : List SessionMatches)
    → IsKeyed details
    → Distinct (result_keys (hydrate_sessions details sessions))
unfolding hydrate_sessions
hydrate_sessions-Distinct details [] k = tt
hydrate_sessions-Distinct details (matches ∷ sessions) k =
    let key = matches.session_pk in
    let k' = without-IsKeyed key details k in
    let rest = hydrate_sessions-Distinct (without key details) sessions k' in
    elim (Option-cases (lookup key details)) [
      | inl gone ↦ rw gone rest
      | inr (found, here) ↦
          let same : (search_result matches found).session_pk ≡ key =
            search_result-key matches found ∙ lookup-IsKeyed details key found k here in
          rw here (
            ap (contains (result_keys (hydrate_sessions (without key details) sessions))) same
                ∙ shown_sessions (without key details) sessions key k'
                ∙ ground (arith, lookup-without key key details),
            rest,
          )
    ]

-- The response shows a session exactly if the page of matches has it and PostgreSQL holds it for
-- the owner, and shows none twice.
pub hydrate_sessions-shown :
    (details : Details) (sessions : List SessionMatches)
    → IsKeyed details
    → ((id : ℕ)
        → contains (result_keys (hydrate_sessions details sessions)) id
          ≡ (contains (session_keys sessions) id && is_some (lookup id details)))
      × Distinct (result_keys (hydrate_sessions details sessions))
hydrate_sessions-shown details sessions k =
    ((λ id. shown_sessions details sessions id k), hydrate_sessions-Distinct details sessions k)
