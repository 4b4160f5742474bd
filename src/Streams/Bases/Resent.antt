-- ===== src/Streams/Bases/Resent.antt =====
-- A request that resends what an exchange answered, as `RequestFacts::read` of facts.rs reads it and
-- `find_base` of base.rs looks for it.
use mathlib.Core.List.{append_assoc, Sublistᴰ}
use mathlib.Core.List.Sublistᴰ.{slnil, cons-cons}
use abyss_backend.Common.{
  ℕ, suc, ◌≤◌, String, Bool, true, false, not, ◌&&◌, List, [], ◌∷◌, ◌++◌, map, Option, none, some,
  ◌≡◌, refl, sym, ap, subst, ◌∙◌, inl, inr, string_eq, option_eq, ==_refl, arith, length, get_elem?,
  take, drop, any, keep, first, last, rposition, All, is_some, and_then, map_or, Bool-cases,
  rposition-of_split, lookup, rposition-append_none, rposition-lt, drop-append_le, drop-suc-append,
  take-append, take-suc-append, get_elem?-append_at, ok,
}
use abyss_backend.Streams.Events.{Entry, SkeletonEntry, RequestFacts}
use abyss_backend.Streams.Facts.{
  is_model_role, is_model_side, is_result, identities, key, skeleton, has_identity, run_start,
  last_run, read_continuing, read_request,
}
use abyss_backend.Streams.Facts.Identities.{tool_calls_only, last-identities, key-none}
use abyss_backend.Streams.Exchanges.{Exchange, Side}
use abyss_backend.Streams.Bases.{
  ById, last_output, holds_key, model_roles_of, said_after, only_emitter, output_of, continued,
  find_by_facts, ByResponse, Base, pointer, request_of, find_base,
}
use abyss_backend.Streams.Bases.Said.{said_after-SaidAfter}

abbrev IsModelSide : Entry → Type 0
IsModelSide entry = is_model_side entry ≡ true

abbrev breaks_run : Entry → Bool
breaks_run entry = not (is_model_side entry) && not (is_result entry)

any-breaks_run : (xs : List Entry) → All IsModelSide xs → any breaks_run xs ≡ false
any-breaks_run [] h = refl
any-breaks_run (x ∷ xs) h = rw (h.0) (any-breaks_run xs h.1)

Sublist_refl {ℓ} : {A : Type ℓ} (xs : List A) → Sublistᴰ xs xs
Sublist_refl [] = slnil
Sublist_refl (x ∷ xs) = cons-cons refl (Sublist_refl xs)

-- Where the last run begins, and that it ends with the output.
last_run-output :
    (digest : String → String) (ctx init new : List Entry) (l : Entry)
    → All IsModelSide init
    → (front : List Entry) × (last_run digest (ctx ++ (init ++ l ∷ new)) (length (ctx ++ init))
        ≡ front ++ (init ++ l ∷ []))
unfolding last_run run_start
last_run-output digest ctx init new l h =
    let entries = ctx ++ (init ++ l ∷ new) in
    let whole : entries ≡ (ctx ++ init) ++ l ∷ new = sym (append_assoc ctx init (l ∷ new)) in
    let start = map_or 0 suc (rposition breaks_run ctx) in
    let bound : start ≤ length ctx = start_le (rposition breaks_run ctx) refl in
    let before : take (length (ctx ++ init)) entries ≡ ctx ++ init =
      ap (take (length (ctx ++ init))) whole ∙ take-append (ctx ++ init) (l ∷ new) in
    let begins : run_start digest entries (length (ctx ++ init)) ≡ start =
      ap (λ xs. map_or 0 suc (rposition breaks_run xs)) before
      ∙ ap (map_or 0 suc) (rposition-append_none breaks_run ctx init (any-breaks_run init h)) in
    let run : take (suc (length (ctx ++ init))) entries ≡ ctx ++ (init ++ l ∷ []) =
      ap (take (suc (length (ctx ++ init)))) whole
      ∙ take-suc-append (ctx ++ init) l new
      ∙ append_assoc ctx init (l ∷ []) in
    (
      drop start ctx,
      ap (λ n. drop n (take (suc (length (ctx ++ init))) entries)) begins
          ∙ ap (drop start) run
          ∙ drop-append_le start ctx (init ++ l ∷ []) bound,
    )
  where
    start_le : (o : Option ℕ) → rposition breaks_run ctx ≡ o → map_or 0 suc o ≤ length ctx
    start_le none e = omega arith
    start_le (some i) e = omega (arith, rposition-lt breaks_run ctx i e)

-- A list that is not empty ends in an element.
ending :
    (x : Entry) (xs : List Entry) → (init : List Entry) × (l : Entry) × (x ∷ xs ≡ init ++ l ∷ [])
ending x [] = ([], x, refl)
ending x (y ∷ ys) = let (init, l, e) = ending y ys in (x ∷ init, l, ap (λ t. x ∷ t) e)

end_of :
    (pre : List Entry) (h : Entry) (post : List Entry)
    → (init : List Entry) × (l : Entry) × (pre ++ h ∷ post ≡ init ++ l ∷ [])
end_of [] h post = ending h post
end_of (p ∷ pre) h post = let (init, l, e) = end_of pre h post in (p ∷ init, l, ap (λ t. p ∷ t) e)

All-split {κ} : (P : Entry → Type κ) (xs ys : List Entry) → All P (xs ++ ys) → All P xs × All P ys
All-split P [] ys h = (tt, h)
All-split P (x ∷ xs) ys h = let (a, b) = All-split P xs ys h.1 in ((h.0, a), b)

-- A model-side entry, whose call id, if it has one, is that of a tool call.
abbrev pub Regular : Entry → Type 0
Regular entry = (is_model_side entry ≡ true) × (tool_calls_only entry ≡ true)

module _ (digest : String → String) where
  -- An entry without identities.
  abbrev pub Unnamed : Entry → Type 0
  Unnamed entry = has_identity digest entry ≡ false

  some-first : (ids : List String) (id : String) → last ids ≡ some id → is_some (first ids) ≡ true
  some-first [] id h = absurd (cc)
  some-first (x ∷ ids) id h = refl

  named :
      (h : Entry) (id : String) → Regular h → key digest h ≡ some id → has_identity digest h ≡ true
  named h id r k = some-first (identities digest h) id (last-identities digest h r.0 r.1 ∙ k)

  any-Unnamed : (post : List Entry) → All Unnamed post → any (has_identity digest) post ≡ false
  any-Unnamed [] u = refl
  any-Unnamed (e ∷ post) u = rw (u.0) (any-Unnamed post u.1)

  -- No entry after the named one is keyed by its identity.
  any-holds_key :
      (id : String) (post : List Entry)
      → All Regular post
      → All Unnamed post
      → any (holds_key id) (map (λ (e : Entry). (e.role, key digest e)) post) ≡ false
  any-holds_key id [] r u = refl
  any-holds_key id (e ∷ post) r u =
      rw (key-none digest e r.0.0 r.0.1 u.0) (ground (arith, any-holds_key id post r.1 u.1))

  model_roles_of-skeleton :
      (post : List Entry)
      → model_roles_of (map (λ (e : Entry). (e.role, key digest e)) post)
        ≡ map (λ (e : Entry). e.role) (keep is_model_side post)
  unfolding is_model_side
  model_roles_of-skeleton [] = refl
  model_roles_of-skeleton (e ∷ post) = elim (Bool-cases (is_model_role e.role)) [
    | inl p ↦ rw p (ap (λ t. e.role ∷ t) (model_roles_of-skeleton post))
    | inr q ↦ rw q (model_roles_of-skeleton post)
  ]

  -- What is read from a run that ends in a named entry and entries without a name.
  read_continuing_lem :
      (entries : List Entry) (last_model : ℕ) (before post : List Entry) (h : Entry) (id : String)
      → last_run digest entries last_model ≡ before ++ h ∷ post
      → Regular h
      → key digest h ≡ some id
      → All Unnamed post
      → ((read_continuing digest entries last_model).last_identity ≡ some id)
        × ((read_continuing digest entries last_model).trailing
            ≡ map (λ (e : Entry). e.role) (keep is_model_side post))
  unfolding read_continuing
  read_continuing_lem entries last_model before post h id run r k u =
      let held : rposition (has_identity digest) (last_run digest entries last_model)
          ≡ some (length before) =
        ap (rposition (has_identity digest)) run
        ∙ rposition-of_split (has_identity digest) before h post (named h id r k)
            (any-Unnamed post u) in
      (
        ap
              (λ o. and_then o (λ at.
                and_then (get_elem? (last_run digest entries last_model) at)
                  (λ e. last (identities digest e))))
              held
            ∙ ap (λ xs. and_then (get_elem? xs (length before)) (λ e. last (identities digest e)))
                run
            ∙ ap (λ o. and_then o (λ e. last (identities digest e)))
                (get_elem?-append_at before h post)
            ∙ last-identities digest h r.0 r.1
            ∙ k,
        ap
              (map_or [] (λ at.
                map (λ (e : Entry). e.role)
                  (keep is_model_side (drop (suc at) (last_run digest entries last_model)))))
              held
            ∙ ap
                (λ xs.
                  map (λ (e : Entry). e.role) (keep is_model_side (drop (suc (length before)) xs)))
                run
            ∙ ap (λ xs. map (λ (e : Entry). e.role) (keep is_model_side xs))
                (drop-suc-append before h post),
      )

  said_after-skeleton :
      (pre post : List Entry) (h : Entry) (id : String)
      → Regular h
      → All Regular post
      → key digest h ≡ some id
      → All Unnamed post
      → said_after
          (skeleton digest (pre ++ h ∷ post))
          id
          (map (λ (e : Entry). e.role) (keep is_model_side post))
        ≡ true
  unfolding skeleton is_model_side
  said_after-skeleton pre post h id r rs k u = (said_after-SaidAfter _ id _).1 (record {
    before = map (λ (e : Entry). (e.role, key digest e)) pre;
    held = (h.role, key digest h);
    after = map (λ (e : Entry). (e.role, key digest e)) post;
    whole = map-split (λ (e : Entry). (e.role, key digest e)) pre (h ∷ post);
    keyed = rw (k, r.0) (==_refl id);
    last_keyed = any-holds_key id post rs u;
    said =
        subst (Sublistᴰ (map (λ (e : Entry). e.role) (keep is_model_side post)))
          (sym (model_roles_of-skeleton post)) (Sublist_refl _);
  })
    where
      map-split :
          (f : Entry → SkeletonEntry) (xs ys : List Entry) → map f (xs ++ ys) ≡ map f xs ++ map f ys
      map-split f [] ys = refl
      map-split f (x ∷ xs) ys = ap (λ t. f x ∷ t) (map-split f xs ys)

  All-IsModelSide : (xs : List Entry) → All Regular xs → All IsModelSide xs
  All-IsModelSide [] h = tt
  All-IsModelSide (x ∷ xs) h = (h.0.0, All-IsModelSide xs h.1)

  module _ (ctx pre post new : List Entry) (h : Entry) (id : String) where
    abbrev output : List Entry
    output = pre ++ h ∷ post

    abbrev resent : RequestFacts
    resent = read_request digest (ctx ++ (output ++ new))

    read_resent :
        All Regular output
        → any is_model_side new ≡ false
        → key digest h ≡ some id
        → All Unnamed post
        → (resent.last_identity ≡ some id)
          × (resent.trailing ≡ map (λ (e : Entry). e.role) (keep is_model_side post))
    unfolding read_request
    read_resent regular silent k u =
        let (init, l, e) = end_of pre h post in
        let parts = All-split Regular init (l ∷ []) (subst (All Regular) e regular) in
        let whole : ctx ++ (output ++ new) ≡ ctx ++ (init ++ l ∷ new) =
          ap (λ t. ctx ++ (t ++ new)) e ∙ ap (λ t. ctx ++ t) (append_assoc init (l ∷ []) new) in
        let found : rposition is_model_side (ctx ++ (output ++ new)) ≡ some (length (ctx ++ init)) =
          ap (rposition is_model_side) (whole ∙ sym (append_assoc ctx init (l ∷ new)))
          ∙ rposition-of_split is_model_side (ctx ++ init) l new parts.1.0.0 silent in
        let (front, run) = last_run-output digest ctx init new l (All-IsModelSide init parts.0) in
        let run' : last_run digest (ctx ++ (output ++ new)) (length (ctx ++ init))
            ≡ (front ++ pre) ++ h ∷ post =
          ap (λ t. last_run digest t (length (ctx ++ init))) whole
          ∙ run
          ∙ ap (λ t. front ++ t) (sym e)
          ∙ sym (append_assoc front pre (h ∷ post)) in
        let named_part = All-split Regular pre (h ∷ post) regular in
        rw (found, read_request)
          (read_continuing_lem (ctx ++ (output ++ new)) (length (ctx ++ init)) (front ++ pre) post h
            id run' named_part.1.0 k u)

    find_by_facts-some :
        (facts : RequestFacts) (exchanges : List Exchange) (by_id : ById) (index emitter : ℕ)
        → facts.last_identity ≡ some id
        → only_emitter (id ∷ []) index by_id ≡ ok emitter
        → said_after (output_of exchanges emitter) id facts.trailing ≡ true
        → find_by_facts index exchanges by_id facts ≡ ok (emitter, last_output)
    unfolding find_by_facts continued
    find_by_facts-some facts exchanges by_id index emitter l o s = rw (l, o, s) refl

    find_by_facts-resent :
        (exchanges : List Exchange) (by_id : ById) (index emitter : ℕ)
        → All Regular output
        → any is_model_side new ≡ false
        → key digest h ≡ some id
        → All Unnamed post
        → only_emitter (id ∷ []) index by_id ≡ ok emitter
        → output_of exchanges emitter ≡ skeleton digest output
        → find_by_facts index exchanges by_id resent ≡ ok (emitter, last_output)
    find_by_facts-resent exchanges by_id index emitter regular silent k u only same =
        let (l, t) = read_resent regular silent k u in
        let parts = All-split Regular pre (h ∷ post) regular in
        find_by_facts-some resent exchanges by_id index emitter l only (
          ap (λ o. said_after o id resent.trailing) same
          ∙ ap (said_after (skeleton digest output) id) t
          ∙ said_after-skeleton pre post h id parts.1.0 parts.1.1 k u)

    -- A request that resends a context, then the whole output of an exchange (model-side entries,
    -- with call ids on tool calls only), and then entries without model output has that exchange as
    -- its base by its last output, where the exchange is the only emitter of the identity of the
    -- last entry of the output that has one, and where the request does not name the response of a
    -- known exchange as its previous one.
    pub find_base-resent :
        (exchanges : List Exchange) (by_response_id : ByResponse) (by_id : ById)
        → (index emitter : ℕ) (request : Side RequestFacts) → All Regular output
        → any is_model_side new ≡ false
        → key digest h ≡ some id
        → All Unnamed post
        → only_emitter (id ∷ []) index by_id ≡ ok emitter
        → output_of exchanges emitter ≡ skeleton digest output
        → request_of exchanges index ≡ some request
        → request.facts ≡ read_request digest (ctx ++ (output ++ new))
        → and_then request.previous_response_id (λ response. lookup response by_response_id) ≡ none
        → find_base index exchanges by_response_id by_id ≡ ok (emitter, last_output)
    unfolding find_base
    find_base-resent exchanges by_response_id by_id index emitter request regular silent k u only
          same asks reads unnamed =
        rw asks (
          ap
            (λ (named : Option ℕ). elim named as (λ _. Base) [
              | none ↦ find_by_facts index exchanges by_id request.facts
              | some base ↦ ok (base, pointer)
            ])
            unnamed
          ∙ ap (find_by_facts index exchanges by_id) reads
          ∙ find_by_facts-resent exchanges by_id index emitter regular silent k u only same)
