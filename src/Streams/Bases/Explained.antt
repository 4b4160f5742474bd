-- ===== src/Streams/Bases/Explained.antt =====
-- What each answer of `find_base` and `find_bases` of base.rs says of the exchanges.
use mathlib.Core.List.{append-nil}
use abyss_backend.Common.{
  ℕ, String, true, false, List, [], ◌∷◌, Option, none, some, ◌≡◌, refl, sym, subst, ◌≢◌, ◌⊎◌, inl,
  inr, ltb, ◌==◌, string_eq, nat_eq, option_eq, Bool-cases, Option-cases, arith, if◌then◌else◌,
  length, All, contains, lookup, Result, ok, err, ◌>>=◌, and_then,
}
use abyss_backend.Streams.Events.{RequestFacts}
use abyss_backend.Streams.Exchanges.{Side, Exchange}
use abyss_backend.Streams.Bases.{
  Base, pointer, last_output, results_only, NoBaseReason, text_only, no_output, unknown_ids,
  multiple_responses, missing_request, ById, ByResponse, emitted_by, only_emitter, output_of,
  request_of, said_after, continued, find_by_facts, find_base,
}
use abyss_backend.Streams.Bases.Said.{SaidAfter, said_after-SaidAfter}
use abyss_backend.Streams.Bases.Emitters.{candidates, OnlyEmitter, only_emitter-OnlyEmitter}

-- The exchange continues the output of another exchange that emitted its last identity and said
-- all that trails it.
pub record ContinuesOutput (exchanges : List Exchange) (by_id : ById) (index base : ℕ)
    (facts : RequestFacts) : Type 0 where
  pub id : String
  pub last_identity : facts.last_identity ≡ some id
  pub emitted : contains (emitted_by by_id id) base ≡ true
  pub other : base ≢ index
  pub said : SaidAfter (output_of exchanges base) id facts.trailing

-- The exchange has no model output, and `base` is, but for the exchange itself, the only one that
-- emitted a call that its tool results answer.
pub record AnswersCalls (by_id : ById) (index base : ℕ) (facts : RequestFacts) : Type 0 where
  pub no_identity : facts.last_identity ≡ none
  pub no_model_output : ltb 0 facts.new_from ≡ false
  pub emitted : contains (candidates by_id facts.result_ids) base ≡ true
  pub other : base ≢ index
  pub only : All (λ c. (c ≡ index) ⊎ (c ≡ base)) (candidates by_id facts.result_ids)

abbrev pub HasPointer : ByResponse → Side RequestFacts → ℕ → Type 0
HasPointer by_response request base =
    (id : String) × (request.previous_response_id ≡ some id) × (lookup id by_response ≡ some base)

-- What each base, and each reason for having none, says of a request.
abbrev pub ExplainedBy : List Exchange → ByResponse → ById → ℕ → Side RequestFacts → Base → Type 0
ExplainedBy exchanges by_response by_id index request (ok (base, pointer)) =
    HasPointer by_response request base
ExplainedBy exchanges by_response by_id index request (ok (base, last_output)) =
    ContinuesOutput exchanges by_id index base request.facts
ExplainedBy exchanges by_response by_id index request (ok (base, results_only)) =
    AnswersCalls by_id index base request.facts
ExplainedBy exchanges by_response by_id index request (err no_output) =
    (request.facts.last_identity ≡ none)
    × (ltb 0 request.facts.new_from ≡ false)
    × (request.facts.result_ids ≡ [])
ExplainedBy exchanges by_response by_id index request (err missing_request) = ⊥
ExplainedBy exchanges by_response by_id index request (err reason) = Unit {0}

abbrev pub Explained : List Exchange → ByResponse → ById → ℕ → Base → Type 0
Explained exchanges by_response by_id index base =
    ((request_of exchanges index ≡ none) × (base ≡ err missing_request))
    ⊎ ((request : Side RequestFacts) × (request_of exchanges index ≡ some request)
        × ExplainedBy exchanges by_response by_id index request base)

module _ (exchanges : List Exchange) (by_response : ByResponse) (by_id : ById) (index : ℕ) where
  pub continued-ExplainedBy :
      (request : Side RequestFacts) (id : String) (emitter : ℕ)
      → request.facts.last_identity ≡ some id
      → contains (emitted_by by_id id) emitter ≡ true
      → emitter ≢ index
      → ExplainedBy exchanges by_response by_id index request
          (continued emitter exchanges id request.facts.trailing)
  unfolding continued
  continued-ExplainedBy request id emitter e m n =
      elim (Bool-cases (said_after (output_of exchanges emitter) id request.facts.trailing)) [
        | inl p ↦
            rw (p, continued)
              (record {
                id = id;
                last_identity = e;
                emitted = m;
                other = n;
                said =
                    (said_after-SaidAfter (output_of exchanges emitter) id request.facts.trailing).0
                      p;
              })
        | inr q ↦ rw (q, continued) tt
      ]

  by_last_identity :
      (request : Side RequestFacts) (id : String)
      → request.facts.last_identity ≡ some id
      → (r : Result NoBaseReason ℕ) → OnlyEmitter index (emitted_by by_id id) r
      → ExplainedBy exchanges by_response by_id index request
          (r >>= λ emitter. continued emitter exchanges id request.facts.trailing)
  by_last_identity request id e (ok emitter) o = continued-ExplainedBy request id emitter e o.0 o.1
  by_last_identity request id e (err unknown_ids) o = tt
  by_last_identity request id e (err multiple_responses) o = tt
  by_last_identity request id e (err text_only) o = tt
  by_last_identity request id e (err no_output) o = absurd o
  by_last_identity request id e (err missing_request) o = o

  by_results :
      (request : Side RequestFacts)
      → request.facts.last_identity ≡ none
      → ltb 0 request.facts.new_from ≡ false
      → (r : Result NoBaseReason ℕ)
      → OnlyEmitter index (candidates by_id request.facts.result_ids) r
      → ExplainedBy exchanges by_response by_id index request
          (r >>= λ base. ok (base, results_only))
  by_results request e n (ok base) o = record {
    no_identity = e;
    no_model_output = n;
    emitted = o.0;
    other = o.1;
    only = o.2;
  }
  by_results request e n (err unknown_ids) o = tt
  by_results request e n (err multiple_responses) o = tt
  by_results request e n (err text_only) o = tt
  by_results request e n (err no_output) o = absurd o
  by_results request e n (err missing_request) o = o

  find_by_facts-some :
      (facts : RequestFacts) (id : String)
      → facts.last_identity ≡ some id
      → find_by_facts index exchanges by_id facts ≡ (
          only_emitter (id ∷ []) index by_id >>= λ emitter.
          continued emitter exchanges id facts.trailing)
  unfolding find_by_facts
  find_by_facts-some facts id e = rw (e, find_by_facts)

  find_by_facts-none :
      (facts : RequestFacts)
      → facts.last_identity ≡ none
      → find_by_facts index exchanges by_id facts ≡ (
          if ltb 0 facts.new_from
          then err text_only
          else if length facts.result_ids == 0
          then err no_output
          else only_emitter facts.result_ids index by_id >>= λ base. ok (base, results_only))
  unfolding find_by_facts
  find_by_facts-none facts e = rw (e, find_by_facts)

  no_results : (ids : List String) → (length ids == 0) ≡ true → ids ≡ []
  no_results [] h = refl
  no_results (id ∷ ids) h = absurd (ground arith)

  find_by_facts-ExplainedBy :
      (request : Side RequestFacts)
      → ExplainedBy exchanges by_response by_id index request
          (find_by_facts index exchanges by_id request.facts)
  find_by_facts-ExplainedBy request = elim (Option-cases request.facts.last_identity) [
    | inr (id, e) ↦
        subst (ExplainedBy exchanges by_response by_id index request)
          (sym (find_by_facts-some request.facts id e))
          (by_last_identity request id e (only_emitter (id ∷ []) index by_id)
            (rw append-nil at (only_emitter-OnlyEmitter (id ∷ []) index by_id)))
    | inl e ↦
        subst (ExplainedBy exchanges by_response by_id index request)
          (sym (find_by_facts-none request.facts e))
          (elim (Bool-cases (ltb 0 request.facts.new_from)) [
            | inl p ↦ rw p tt
            | inr q ↦ elim (Bool-cases (length request.facts.result_ids == 0)) [
              | inl p' ↦ rw (q, p') (e, q, no_results request.facts.result_ids p')
              | inr q' ↦
                  rw (q, q')
                    (by_results request e q (only_emitter request.facts.result_ids index by_id)
                      (only_emitter-OnlyEmitter request.facts.result_ids index by_id))
            ]
          ])
  ]

  by_pointer :
      (request : Side RequestFacts) (found : Option ℕ)
      → and_then request.previous_response_id (λ id. lookup id by_response) ≡ found
      → ExplainedBy exchanges by_response by_id index request (elim found [
        | some base ↦ ok (base, pointer)
        | none ↦ find_by_facts index exchanges by_id request.facts
      ])
  by_pointer request none h = find_by_facts-ExplainedBy request
  by_pointer request (some base) h = elim (Option-cases request.previous_response_id) [
    | inl e ↦ absurd (ground arith)
    | inr (id, e) ↦ (id, e, ground arith)
  ]

  find_base-none :
      request_of exchanges index ≡ none
      → find_base index exchanges by_response by_id ≡ err missing_request
  unfolding find_base
  find_base-none e = rw (e, find_base)

  find_base-some :
      (request : Side RequestFacts)
      → request_of exchanges index ≡ some request
      → find_base index exchanges by_response by_id
        ≡ (elim (and_then request.previous_response_id (λ id. lookup id by_response)) [
          | some base ↦ ok (base, pointer)
          | none ↦ find_by_facts index exchanges by_id request.facts
        ])
  unfolding find_base
  find_base-some request e = rw (e, find_base)

  pub find_base-Explained :
      Explained exchanges by_response by_id index (find_base index exchanges by_response by_id)
  find_base-Explained = elim (Option-cases (request_of exchanges index)) [
    | inl e ↦ inl (e, find_base-none e)
    | inr (request, e) ↦ inr (
      request,
      e,
      subst (ExplainedBy exchanges by_response by_id index request) (sym (find_base-some request e))
          (by_pointer request _ refl),
    )
  ]
