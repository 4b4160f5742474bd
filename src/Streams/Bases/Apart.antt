-- ===== src/Streams/Bases/Apart.antt =====
-- `tell_apart` and `find_bases` of base.rs: a request whose last identity several exchanges
-- emitted.
use abyss_backend.Common.{
  ℕ, ◌<◌, String, Bool, true, not, ◌&&◌, List, [], ◌∷◌, Option, some, ◌≡◌, subst, ◌≢◌, inl, inr,
  ◌==◌, nat_eq, ==_refl, Bool-cases, Option-cases, arith, length, All, All-map, contains, keep,
  map_option, get_or-map_indices,
}
use abyss_backend.Streams.Events.{RequestFacts}
use abyss_backend.Streams.Exchanges.{Side, Exchange}
use abyss_backend.Streams.Bases.{
  Base, ById, ByResponse, emitted_by, request_of, find_base, base_at, saw, tell_kept, kept_emitters,
  emitter_before, tell_apart, is_multiple, resolve, first_bases, find_bases,
}
use abyss_backend.Streams.Bases.Explained.{
  Explained, ExplainedBy, continued-ExplainedBy, find_base-Explained,
}

abbrev Kept : (ℕ → Bool) → List ℕ → ℕ → Type 0
Kept p xs e = (contains xs e ≡ true) × (p e ≡ true)

Kept-cons : (p : ℕ → Bool) (x : ℕ) (xs : List ℕ) (e : ℕ) → Kept p xs e → Kept p (x ∷ xs) e
Kept-cons p x xs e h = (ground arith, h.1)

keep-All : (p : ℕ → Bool) (xs : List ℕ) → All (Kept p xs) (keep p xs)
keep-All p [] = tt
keep-All p (x ∷ xs) =
    let later =
      All-map (Kept p xs) (Kept p (x ∷ xs)) (keep p xs) (Kept-cons p x xs) (keep-All p xs) in
    elim (Bool-cases (p x)) [ inl h ↦ rw h ((rw (==_refl x), h), later) | inr h ↦ rw h later ]

module _ (exchanges : List Exchange) (by_response : ByResponse) (by_id : ById) where
  abbrev IsOther : ℕ → String → ℕ → Type 0
  IsOther index id emitter = (contains (emitted_by by_id id) emitter ≡ true) × (emitter ≢ index)

  kept_emitters-IsOther :
      (index : ℕ) (found : List Base) (id : String) (before : Option ℕ)
      → All (IsOther index id) (kept_emitters index exchanges by_id found id before)
  unfolding kept_emitters
  kept_emitters-IsOther index found id before =
      All-map
        (λ e.
          (contains (emitted_by by_id id) e ≡ true)
          × ((not (e == index) && saw exchanges found id before e) ≡ true))
        (IsOther index id) _ (λ e h. (h.0, (λ p. ground (arith, h.1, nat_eq.decides e index))))
        (keep-All (λ e. not (e == index) && saw exchanges found id before e) (emitted_by by_id id))

  tell_kept-ExplainedBy :
      (index : ℕ) (request : Side RequestFacts) (id : String)
      → request.facts.last_identity ≡ some id
      → (kept : List ℕ) → All (IsOther index id) kept
      → ExplainedBy exchanges by_response by_id index request
          (tell_kept exchanges id request.facts.trailing kept)
  unfolding tell_kept
  tell_kept-ExplainedBy index request id e [] h = tt
  tell_kept-ExplainedBy index request id e (emitter ∷ []) h =
      continued-ExplainedBy exchanges by_response by_id index request id emitter e h.0.0 h.0.1
  tell_kept-ExplainedBy index request id e (_ ∷ _ ∷ _) h = tt

  tell_apart-some :
      (index : ℕ) (found : List Base) (request : Side RequestFacts) (id : String)
      → request_of exchanges index ≡ some request
      → request.facts.last_identity ≡ some id
      → tell_apart index exchanges by_id found
        ≡ map_option
            (λ before.
              tell_kept exchanges id request.facts.trailing
                (kept_emitters index exchanges by_id found id before))
            (emitter_before index by_id request.facts.previous_identity)
  unfolding tell_apart
  tell_apart-some index found request id e f = rw (e, tell_apart) (rw f)

  tell_apart-Explained :
      (index : ℕ) (found : List Base) (base : Base)
      → tell_apart index exchanges by_id found ≡ some base
      → Explained exchanges by_response by_id index base
  tell_apart-Explained index found base h = elim (Option-cases (request_of exchanges index)) [
    | inl e ↦ absurd (unfold tell_apart in ground arith)
    | inr (request, e) ↦ elim (Option-cases request.facts.last_identity) [
      | inl f ↦ absurd (unfold tell_apart in ground arith)
      | inr (id, f) ↦
          elim (Option-cases (emitter_before index by_id request.facts.previous_identity)) [
            | inl g ↦ absurd (ground (arith, tell_apart-some index found request id e f))
            | inr (before, g) ↦ inr (
              request,
              e,
              subst (ExplainedBy exchanges by_response by_id index request)
                  (ground (arith, tell_apart-some index found request id e f))
                  (tell_kept-ExplainedBy index request id f
                    (kept_emitters index exchanges by_id found id before)
                    (kept_emitters-IsOther index found id before)),
            )
          ]
    ]
  ]

  resolve-Explained :
      (index : ℕ) (found : List Base)
      → Explained exchanges by_response by_id index (base_at found index)
      → Explained exchanges by_response by_id index (resolve exchanges by_id found index)
  resolve-Explained index found h = elim (Bool-cases (is_multiple (base_at found index))) [
    | inr q ↦ rw q h
    | inl p ↦ rw p (elim (Option-cases (tell_apart index exchanges by_id found)) [
      | inl e ↦ rw e h
      | inr (base, e) ↦ rw e (tell_apart-Explained index found base e)
    ])
  ]

  -- Every base that `find_bases` gives is explained by the exchanges: a pointer names a response of
  -- the session; `last_output` names another exchange that emitted the request's last identity and
  -- said all that trails it; `results_only` names the only other exchange that emitted a call that
  -- the tool results answer, of a request without model output. Of the reasons for having none,
  -- `no_output` is given to requests without any of these only, and `missing_request` to exchanges
  -- without a request only.
  pub find_bases-Explained :
      (index : ℕ)
      → index < length exchanges
      → Explained exchanges by_response by_id index
          (base_at (find_bases exchanges by_response by_id) index)
  unfolding find_bases first_bases
  find_bases-Explained index h =
      let found = first_bases exchanges by_response by_id in
      rw (get_or-map_indices (resolve exchanges by_id found) (length exchanges) index _ h) (
        resolve-Explained index found (
          rw
            (get_or-map_indices (λ i. find_base i exchanges by_response by_id) (length exchanges)
              index _ h)
            (find_base-Explained exchanges by_response by_id index)))
