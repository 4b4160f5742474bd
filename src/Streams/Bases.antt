-- ===== src/Streams/Bases.antt =====
-- usage/streams/base.rs: the base of each exchange, the one whose output its context continues.
mod Emitters
mod Explained
mod Apart
mod Said
mod Resent
mod Tests
use abyss_backend.Common.{
  ℕ, zero, suc, ◌+◌, String, Bool, true, false, not, ◌&&◌, ◌||◌, List, [], ◌∷◌, ◌++◌, map, Option,
  none, some, ltb, ◌==◌, string_eq, nat_eq, option_eq, if◌then◌else◌, length, get_elem?, get_or,
  drop, keep, first, last, rposition, range, lookup, insert, for_each, Result, ok, err, ◌>>=◌,
  to_option, ok_or, is_none, unwrap_or, to_list, and_then, map_option, map_or,
}
use abyss_backend.Streams.Events.{RequestFacts, ResponseFacts, SkeletonEntry}
use abyss_backend.Streams.Facts.{is_model_role}
use abyss_backend.Streams.Exchanges.{Side, Exchange}

pub data BaseRule : Type 0 where
  pointer last_output results_only : BaseRule

pub data NoBaseReason : Type 0 where
  text_only no_output unknown_ids multiple_responses missing_request : NoBaseReason

abbrev pub Base : Type 0
Base = Result NoBaseReason (ℕ × BaseRule)

abbrev pub ById : Type 0
ById = List (String × List ℕ)

abbrev pub ByResponse : Type 0
ByResponse = List (String × ℕ)

-- The exchanges that emitted an identity: `by_id.get(id).into_iter().flatten()`.
abbrev pub emitted_by : ById → String → List ℕ
emitted_by by_id id = unwrap_or (lookup id by_id) []

-- `by_id.entry(id).or_default()`, and a push unless the list ends in `index`.
unfoldable pub record_emitter : ℕ → String → ById → ById
record_emitter index id by_id =
    let list = emitted_by by_id id in
    insert id (if last list == some index then list else list ++ index ∷ []) by_id

unfoldable pub record_ids : ℕ → List String → ById → ById
record_ids index [] by_id = by_id
record_ids index (id ∷ ids) by_id = record_ids index ids (record_emitter index id by_id)

abbrev pub emitted_ids : Exchange → List String
emitted_ids exchange = map_or [] (λ (r : Side ResponseFacts). r.facts.emitted_ids) exchange.response

-- `emitters`
unfoldable pub emitters : List Exchange → ById
unfolding record_ids record_emitter
emitters exchanges =
    for_each (λ index exchange by_id. record_ids index (emitted_ids exchange) by_id) 0 exchanges []

-- The inner loop of `only_emitter`, over the exchanges that emitted one identity.
unfoldable pub scan_emitters : ℕ → List ℕ → Option ℕ → Result NoBaseReason (Option ℕ)
scan_emitters own [] found = ok found
scan_emitters own (emitter ∷ rest) found = elim (emitter == own || found == some emitter) [
  | true ↦ scan_emitters own rest found
  | false ↦ elim found [
    | some other ↦ err multiple_responses
    | none ↦ scan_emitters own rest (some emitter)
  ]
]

unfoldable pub scan_ids : ℕ → ById → List String → Option ℕ → Result NoBaseReason (Option ℕ)
unfolding scan_emitters
scan_ids own by_id [] found = ok found
scan_ids own by_id (id ∷ ids) found =
    scan_emitters own (emitted_by by_id id) found >>= scan_ids own by_id ids

-- `only_emitter`
unfoldable pub only_emitter : List String → ℕ → ById → Result NoBaseReason ℕ
unfolding scan_ids
only_emitter ids own by_id = scan_ids own by_id ids none >>= λ found. ok_or found unknown_ids

-- `said.any(|spoken| spoken == role)`: what is left behind the first entry with the role.
unfoldable pub skip_past : String → List String → Option (List String)
skip_past role [] = none
skip_past role (spoken ∷ said) =
    let rest = skip_past role said in if spoken == role then some said else rest

-- `trailing.iter().all(…)` over the one iterator `said`.
unfoldable pub said_in_order : List String → List String → Bool
unfolding skip_past
said_in_order [] said = true
said_in_order (role ∷ trailing) said = elim (skip_past role said) [
  | none ↦ false
  | some rest ↦ said_in_order trailing rest
]

-- The roles of the model-side entries of a skeleton.
abbrev pub model_roles_of : List SkeletonEntry → List String
model_roles_of output = keep is_model_role (map (λ (e : SkeletonEntry). e.0) output)

abbrev pub holds_key : String → SkeletonEntry → Bool
holds_key id entry = is_model_role entry.0 && entry.1 == some id

-- `said_after`
unfoldable pub said_after : List SkeletonEntry → String → List String → Bool
unfolding said_in_order
said_after output id trailing = elim (rposition (holds_key id) output) [
  | none ↦ false
  | some held ↦ said_in_order trailing (model_roles_of (drop (suc held) output))
]

abbrev pub output_of : List Exchange → ℕ → List SkeletonEntry
output_of exchanges emitter =
    unwrap_or
      (and_then (get_elem? exchanges emitter) λ exchange.
        map_option (λ (r : Side ResponseFacts). r.facts.output_skeleton) exchange.response)
      []

-- `continued`
unfoldable pub continued : ℕ → List Exchange → String → List String → Base
unfolding said_after
continued emitter exchanges id trailing =
    if said_after (output_of exchanges emitter) id trailing
    then ok (emitter, last_output)
    else err text_only

abbrev pub request_of : List Exchange → ℕ → Option (Side RequestFacts)
request_of exchanges index = and_then (get_elem? exchanges index) λ exchange. exchange.request

-- `find_base` where the pointer names no response of the session.
unfoldable pub find_by_facts : ℕ → List Exchange → ById → RequestFacts → Base
unfolding only_emitter continued
find_by_facts index exchanges by_id facts = elim facts.last_identity [
  | some id ↦ only_emitter (id ∷ []) index by_id >>= λ emitter.
      continued emitter exchanges id facts.trailing
  | none ↦
      if ltb 0 facts.new_from
      then err text_only
      else if length facts.result_ids == 0
      then err no_output
      else only_emitter facts.result_ids index by_id >>= λ base. ok (base, results_only)
]

-- `find_base`
unfoldable pub find_base : ℕ → List Exchange → ByResponse → ById → Base
unfolding find_by_facts
find_base index exchanges by_response_id by_id =
    ok_or (request_of exchanges index) missing_request >>= λ request.
    elim (and_then request.previous_response_id (λ id. lookup id by_response_id)) [
      | some base ↦ ok (base, pointer)
      | none ↦ find_by_facts index exchanges by_id request.facts
    ]

abbrev pub base_at : List Base → ℕ → Base
base_at bases index = get_or bases index (err missing_request)

abbrev pub is_no_output : Base → Bool
is_no_output (err no_output) = true
is_no_output _ = false

abbrev pub has_base : ℕ → Base → Bool
has_base base (ok (found, rule)) = found == base
has_base base (err e) = false

-- The emitter had no context, named no response and spoke the identity first.
unfoldable pub said_first_without_context : List Exchange → List Base → String → ℕ → Bool
said_first_without_context exchanges found id emitter =
    is_no_output (base_at found emitter)
    && map_or false (λ (r : Side RequestFacts). is_none r.previous_response_id)
        (request_of exchanges emitter)
    && (and_then (get_elem? exchanges emitter) (λ e. first (emitted_ids e)) == some id)

-- Whether the emitter saw what the request has before its last identity.
unfoldable pub saw : List Exchange → List Base → String → Option ℕ → ℕ → Bool
unfolding said_first_without_context
saw exchanges found id none emitter = said_first_without_context exchanges found id emitter
saw exchanges found id (some before) emitter =
    emitter == before || has_base before (base_at found emitter)

-- `match (kept.next(), kept.next())`
unfoldable pub tell_kept : List Exchange → String → List String → List ℕ → Base
unfolding continued
tell_kept exchanges id trailing [] = err unknown_ids
tell_kept exchanges id trailing (emitter ∷ []) = continued emitter exchanges id trailing
tell_kept exchanges id trailing (_ ∷ _ ∷ _) = err multiple_responses

unfoldable pub kept_emitters : ℕ → List Exchange → ById → List Base → String → Option ℕ → List ℕ
unfolding saw
kept_emitters index exchanges by_id found id before =
    keep (λ emitter. not (emitter == index) && saw exchanges found id before emitter)
      (emitted_by by_id id)

-- The single emitter of the identity before the last one; `none` where it has no single emitter.
unfoldable pub emitter_before : ℕ → ById → Option String → Option (Option ℕ)
unfolding only_emitter
emitter_before index by_id none = some none
emitter_before index by_id (some previous) =
    map_option some (to_option (only_emitter (previous ∷ []) index by_id))

-- `tell_apart`
unfoldable pub tell_apart : ℕ → List Exchange → ById → List Base → Option Base
unfolding tell_kept kept_emitters emitter_before
tell_apart index exchanges by_id found = and_then (request_of exchanges index) λ request.
    and_then request.facts.last_identity λ id.
      map_option
        (λ before.
          tell_kept exchanges id request.facts.trailing
            (kept_emitters index exchanges by_id found id before))
        (emitter_before index by_id request.facts.previous_identity)

abbrev pub is_multiple : Base → Bool
is_multiple (err multiple_responses) = true
is_multiple _ = false

abbrev pub resolve : List Exchange → ById → List Base → ℕ → Base
resolve exchanges by_id found index =
    let base = base_at found index in
    if is_multiple base then unwrap_or (tell_apart index exchanges by_id found) base else base

-- The base of every exchange by `find_base`.
unfoldable pub first_bases : List Exchange → ByResponse → ById → List Base
unfolding find_base
first_bases exchanges by_response_id by_id =
    map (λ index. find_base index exchanges by_response_id by_id) (range 0 (length exchanges))

-- `find_bases`
unfoldable pub find_bases : List Exchange → ByResponse → ById → List Base
unfolding first_bases tell_apart
find_bases exchanges by_response_id by_id =
    map (resolve exchanges by_id (first_bases exchanges by_response_id by_id))
      (range 0 (length exchanges))
