-- ===== src/Search/Query/Acceptance.antt =====
-- Which search queries are accepted (search/mod.rs).
use abyss_backend.Common.{
  ℕ, zero, suc, ◌+◌, ◌-◌, ◌*◌, ◌≤◌, ◌<◌, Bool, true, false, not, ◌&&◌, ◌||◌, String, List, Option,
  none, some, ◌≡◌, refl, ap, ◌∙◌, inl, inr, arith, ltb, leb, ◌==◌, nat_eq, list_eq, length, all,
  unwrap_or, Bool-cases, Result, ok, is_ok, is_ok-bind, is_ok-chain, traverse, sort_by, le→ltb,
  ◌>>=◌, ◌>>◌, is_ok-traverse, ==→eq,
}
use abyss_backend.Errors.{AppError, reject_if}
use abyss_backend.Search.Text.{Text, codes}
use abyss_backend.Search.Text.Trimming.{trim}
use abyss_backend.Search.Text.Ordering.{text_le}
use abyss_backend.Search.Query.{
  SessionSearchQuery, is_empty, normalized_required, normalized_query, normalized_optional,
  normalized_list, page_offset, validated_type, validate, u32_bound, dedup, is_misordered,
  is_unknown_type,
}

-- What is left of a value without the whitespace around it has 1 to 256 characters.
abbrev pub is_named : Text → Bool
is_named value = not (is_empty (trim value)) && leb (length (trim value)) 256

abbrev pub is_type : Option Text → Bool
is_type none = true
is_type (some value) = trim value == codes "request" || trim value == codes "response"

abbrev pub is_in_order : Option ℕ → Option ℕ → Bool
is_in_order (some from) (some to) = ltb from to
is_in_order _ _ = true

-- The page ends within the first 10,000 results.
abbrev pub is_page : ℕ → ℕ → Bool
is_page page page_size =
    leb 1 page && leb 1 page_size && leb page_size 50 && leb (page * page_size) 10_000

abbrev pub is_acceptable : SessionSearchQuery → Bool
is_acceptable query =
    is_named query.q
    && (is_in_order query.from query.to
        && (is_page (unwrap_or query.page 1) (unwrap_or query.page_size 20)
            && (is_type query.event_type
                && (all is_named query.agent_name
                    && (all is_named query.llm_provider && all is_named query.llm_model)))))

required-is_named :
    (value : Text) (field : String) → is_ok (normalized_required value field 256) ≡ is_named value
unfolding normalized_required
required-is_named value field = ground arith

and_true : (b : Bool) → (b && true) ≡ b
and_true b = ground arith

list-is_named :
    (values : List Text) (field : String)
    → is_ok (normalized_list values field) ≡ all is_named values
unfolding normalized_list
list-is_named values field =
    is_ok-bind (traverse (λ value. normalized_required value field 256) values)
      (λ normalized. ok (dedup (sort_by text_le normalized))) true (λ a e. refl)
    ∙ and_true (is_ok (traverse (λ value. normalized_required value field 256) values))
    ∙ is_ok-traverse (λ value. normalized_required value field 256) is_named values
        (λ value. required-is_named value field)

or_false : (a b : Bool) → a ≡ false → b ≡ false → (a || b) ≡ false
or_false a b h k = ground arith

-- The arithmetic of 32 bits refuses nothing that the window of results allows.
page_offset-is_page :
    (page page_size : ℕ)
    → page < u32_bound
    → page_size < u32_bound
    → is_ok (page_offset page page_size) ≡ is_page page page_size
unfolding page_offset
page_offset-is_page zero page_size h k = refl
page_offset-is_page (suc p) page_size h k =
    let whole : (suc p - 1) * page_size + page_size ≡ suc p * page_size = grind arith in
    ground (arith, whole)

type_text :
    (t : Text) (name : Text)
    → (t == name) ≡ true
    → is_empty name ≡ false
    → length name ≤ 256
    → (is_empty t ≡ false) × (ltb 256 (length t) ≡ false)
type_text t name h e l =
    let same = ==→eq t name h in
    (ap is_empty same ∙ e, ap (λ x. ltb 256 (length x)) same ∙ le→ltb 256 (length name) l)

-- The two checks of the length, then the test `unknown`.
abbrev checks : Bool → Bool → (Option Text → Bool) → Text → Result AppError (Option Text)
checks empty long unknown t =
    ((reject_if empty "event_type must not be empty"
        >> (reject_if long "event_type must not exceed 256 characters" >> ok t))
      >>= λ v. ok (some v))
    >>= λ type. reject_if (unknown type) "event_type must be request or response" >> ok type

checks-is_ok :
    (empty long : Bool) (unknown : Option Text → Bool) (t : Text) (known : Bool)
    → unknown (some t) ≡ not known
    → (known ≡ true → (empty ≡ false) × (long ≡ false))
    → is_ok (checks empty long unknown t) ≡ known
checks-is_ok empty long unknown t true u k = rw (k refl).0 (rw (k refl).1 (rw u refl))
checks-is_ok true long unknown t false u k = refl
checks-is_ok false true unknown t false u k = refl
checks-is_ok false false unknown t false u k = rw u refl

known_type :
    (t : Text)
    → (t == codes "request" || t == codes "response") ≡ true
    → (is_empty t ≡ false) × (ltb 256 (length t) ≡ false)
known_type t h = elim (Bool-cases (t == codes "request")) [
  | inl e ↦ type_text t (codes "request") e refl (omega arith)
  | inr e ↦ elim (Bool-cases (t == codes "response")) [
    | inl f ↦ type_text t (codes "response") f refl (omega arith)
    | inr f ↦ absurd (ground (arith, or_false _ _ e f))
  ]
]

validated_type-is_type :
    (event_type : Option Text) → is_ok (validated_type event_type) ≡ is_type event_type
unfolding validated_type normalized_optional normalized_required
validated_type-is_type none = refl
validated_type-is_type (some value) =
    let t = trim value in
    checks-is_ok (is_empty t) (ltb 256 (length t)) is_unknown_type t
      (t == codes "request" || t == codes "response") refl (known_type t)

in_order :
    (from to : Option ℕ)
    → is_ok (reject_if (is_misordered from to) "from must be earlier than to") ≡ is_in_order from to
in_order none none = refl
in_order none (some to) = refl
in_order (some from) none = refl
in_order (some from) (some to) = ground arith

-- Where the numbers of a query are of 32 bits, it is accepted exactly if it is acceptable: what is
-- searched, each filter and the event type are named in 1 to 256 characters, apart from the
-- whitespace around them, the event type is a known one, the range of time is not empty, and a page
-- of 1 to 50 sessions ends within the first 10,000.
pub validate-is_acceptable :
    (query : SessionSearchQuery)
    → unwrap_or query.page 1 < u32_bound
    → unwrap_or query.page_size 20 < u32_bound
    → is_ok (validate query) ≡ is_acceptable query
unfolding validate normalized_query
validate-is_acceptable query h k =
    let page = unwrap_or query.page 1 in
    let page_size = unwrap_or query.page_size 20 in
    let models = all is_named query.llm_model in
    let providers = all is_named query.llm_provider && models in
    let agents = all is_named query.agent_name && providers in
    let typed = is_type query.event_type && agents in
    let paged = is_page page page_size && typed in
    is_ok-chain (normalized_required query.q "q" 256) _ (is_named query.q)
      (is_in_order query.from query.to && paged) (required-is_named query.q "q")
      λ text.
        is_ok-chain (reject_if (is_misordered query.from query.to) "from must be earlier than to") _
          (is_in_order query.from query.to) paged (in_order query.from query.to)
          λ _.
            is_ok-chain (page_offset page page_size) _ (is_page page page_size) typed
              (page_offset-is_page page page_size h k)
              λ offset.
                is_ok-chain (validated_type query.event_type) _ (is_type query.event_type) agents
                  (validated_type-is_type query.event_type)
                  λ event_type.
                    is_ok-chain (normalized_list query.agent_name "agent_name") _
                      (all is_named query.agent_name) providers
                      (list-is_named query.agent_name "agent_name")
                      λ agent_names.
                        is_ok-chain (normalized_list query.llm_provider "llm_provider") _
                          (all is_named query.llm_provider) models
                          (list-is_named query.llm_provider "llm_provider")
                          λ llm_providers.
                            is_ok-chain (normalized_list query.llm_model "llm_model") _
                              (all is_named query.llm_model) true
                              (list-is_named query.llm_model "llm_model") (λ llm_models. refl)
                            ∙ and_true models
