-- ===== src/Streams/Turns/Numbers.antt =====
-- The numbers that `Turns::assign` of turns.rs gives to turns.
use mathlib.Core.Option.{some-injective}
use abyss_backend.Common.{
  ℕ, suc, ◌<◌, String, Bool, List, [], ◌∷◌, ◌++◌, Option, none, some, ◌≡◌, refl, sym, ap, subst,
  ◌∙◌, inl, inr, ltb, string_eq, nat_eq, ==-cases, Bool-cases, Option-cases, arith, length,
  length-append, get_elem?, get_or, get_elem?-append_some, get_elem?-append_end, get_elem?-snoc,
  lt-of_get_elem?, get_or-of_get_elem?, get_or-of_none, lookup, insert, lookup-insert_self,
  lookup-insert_ne, for_each_rule, ok, err,
}
use abyss_backend.Streams.Exchanges.{Exchange}
use abyss_backend.Streams.Bases.{Base, base_at}
use abyss_backend.Streams.Turns.{
  Turns, Assigning, no_turns, declares_turns, opened, latest, inherited, push_turn, join_turn,
  assign_one, assign,
}

-- A turn that an exchange has been given is one of the turns.
abbrev pub InRange : List (Option ℕ) → List String → Type 0
InRange of ids = (i t : ℕ) → get_elem? of i ≡ some (some t) → t < length ids

-- Each turn has an exchange.
abbrev pub IsUsed : List (Option ℕ) → List String → Type 0
IsUsed of ids = (t : ℕ) → t < length ids → (i : ℕ) × (get_elem? of i ≡ some (some t))

-- What holds after `count` exchanges.
pub record Inv (count : ℕ) (s : Assigning) : Type 0 where
  pub one_each : length s.of ≡ count
  pub in_range : InRange s.of s.ids
  pub used : IsUsed s.of s.ids
  pub known_id : (id : String) (t : ℕ) → lookup id s.known ≡ some t → get_elem? s.ids t ≡ some id
  pub id_known : (id : String) (t : ℕ) → get_elem? s.ids t ≡ some id → lookup id s.known ≡ some t

-- A turn that may be pushed: none, or one of the turns.
abbrev Fits : Option ℕ → List String → Type 0
Fits none ids = Unit {0}
Fits (some t) ids = t < length ids

InRange-push :
    (of : List (Option ℕ)) (ids : List String) (turn : Option ℕ)
    → Fits turn ids
    → InRange of ids
    → InRange (of ++ turn ∷ []) ids
InRange-push of ids turn fits h i t e = elim (get_elem?-snoc of turn i (some t) e) [
  | inl old ↦ h i t old
  | inr (_, new) ↦ subst (λ o. Fits o ids) new fits
]

push_turn-Inv :
    (count : ℕ) (s : Assigning) (turn : Option ℕ)
    → Fits turn s.ids
    → Inv count s
    → Inv (suc count) (push_turn turn s)
push_turn-Inv count s turn fits v = record {
  one_each = omega (arith, length-append s.of (turn ∷ []), v.one_each);
  in_range = InRange-push s.of s.ids turn fits v.in_range;
  used =
      λ t lt. let (i, e) = v.used t lt in (i, get_elem?-append_some s.of (turn ∷ []) i (some t) e);
  known_id = v.known_id;
  id_known = v.id_known;
}

abbrev pub new_turn : String → Assigning → Assigning
new_turn id state = push_turn (some (length state.ids)) (record {
  turns = record state.turns { ids = state.ids ++ id ∷ [] };
  known = insert id (length state.ids) state.known;
})

new_turn-IsUsed :
    (id : String) (of : List (Option ℕ)) (ids : List String)
    → IsUsed of ids
    → IsUsed (of ++ some (length ids) ∷ []) (ids ++ id ∷ [])
new_turn-IsUsed id of ids h t lt = elim (==-cases t (length ids)) [
  | inl (_, e) ↦ (length of, rw e (get_elem?-append_end of (some (length ids)) (length of) refl))
  | inr (_, n) ↦
      let (i, e) = h t (omega (arith, length-append ids (id ∷ []), lt, n)) in
      (i, get_elem?-append_some of (some (length ids) ∷ []) i (some t) e)
]

new_turn-Inv :
    (count : ℕ) (s : Assigning) (id : String)
    → lookup id s.known ≡ none
    → Inv count s
    → Inv (suc count) (new_turn id s)
new_turn-Inv count s id fresh v = record {
  one_each = omega (arith, length-append s.of (some (length s.ids) ∷ []), v.one_each);
  in_range = λ i t e. elim (get_elem?-snoc s.of (some (length s.ids)) i (some t) e) [
    | inl old ↦ omega (arith, v.in_range i t old, length-append s.ids (id ∷ []))
    | inr (_, new) ↦
        let l : length s.ids ≡ t = ground arith in omega (arith, l, length-append s.ids (id ∷ []))
  ];
  used = new_turn-IsUsed id s.of s.ids v.used;
  known_id = known_id;
  id_known = id_known;
}
  where
    known_id :
        (j : String) (t : ℕ)
        → lookup j (insert id (length s.ids) s.known) ≡ some t
        → get_elem? (s.ids ++ id ∷ []) t ≡ some j
    known_id j t e = elim (==-cases id j) [
      | inl (_, q) ↦ rw (← q) (
          get_elem?-append_end s.ids id t
            (ground (arith, lookup-insert_self id (length s.ids) s.known)))
      | inr (_, q) ↦
          get_elem?-append_some s.ids (id ∷ []) t j
            (v.known_id j t (rw (lookup-insert_ne id j (length s.ids) s.known q) at e))
    ]

    id_known :
        (j : String) (t : ℕ)
        → get_elem? (s.ids ++ id ∷ []) t ≡ some j
        → lookup j (insert id (length s.ids) s.known) ≡ some t
    id_known j t e = elim (get_elem?-snoc s.ids id t j e) [
      | inl old ↦ elim (==-cases id j) [
        | inl (_, q) ↦ cc (v.id_known j t old)
        | inr (_, q) ↦ rw (lookup-insert_ne id j (length s.ids) s.known q) (v.id_known j t old)
      ]
      | inr (e', q) ↦ rw (← q, e') (lookup-insert_self id (length s.ids) s.known)
    ]

pub join_turn-known :
    (id : String) (s : Assigning) (t : ℕ)
    → lookup id s.known ≡ some t
    → join_turn id s ≡ push_turn (some t) s
unfolding join_turn
join_turn-known id s t e = rw (e, join_turn)

pub join_turn-new :
    (id : String) (s : Assigning) → lookup id s.known ≡ none → join_turn id s ≡ new_turn id s
unfolding join_turn
join_turn-new id s e = rw (e, join_turn)

join_turn-Inv :
    (count : ℕ) (s : Assigning) (id : String) → Inv count s → Inv (suc count) (join_turn id s)
join_turn-Inv count s id v = elim (Option-cases (lookup id s.known)) [
  | inl e ↦ subst (Inv (suc count)) (sym (join_turn-new id s e)) (new_turn-Inv count s id e v)
  | inr (t, e) ↦
      subst (Inv (suc count)) (sym (join_turn-known id s t e))
        (push_turn-Inv count s (some t) (lt-of_get_elem? s.ids t (v.known_id id t e)) v)
]

latest-Fits : (ids : List String) → Fits (latest ids) ids
latest-Fits [] = tt
latest-Fits (id ∷ ids) = ground arith

get_or-Fits :
    (of : List (Option ℕ)) (ids : List String) (i : ℕ)
    → InRange of ids
    → (turn : Option ℕ) → get_or of i none ≡ turn
    → Fits turn ids
get_or-Fits of ids i h none e = tt
get_or-Fits of ids i h (some t) e = elim (Option-cases (get_elem? of i)) [
  | inl f ↦ absurd (ground (arith, get_or-of_none of i none f))
  | inr (o, f) ↦ h i t (f ∙ ap some (sym (get_or-of_get_elem? of i o none f) ∙ e))
]

inherited-Fits :
    (index : ℕ) (base : Base) (of : List (Option ℕ)) (ids : List String)
    → InRange of ids
    → Fits (inherited index base of ids) ids
unfolding inherited
inherited-Fits index (ok (base, rule)) of ids h = elim (Bool-cases (ltb base index)) [
  | inl p ↦ rw (p, inherited) (get_or-Fits of ids base h _ refl)
  | inr q ↦ rw (q, inherited) (latest-Fits ids)
]
inherited-Fits index (err reason) of ids h = latest-Fits ids

module _ (declared : Bool) (bases : List Base) where
  pub assign_one-opened :
      (index : ℕ) (exchange : Exchange) (s : Assigning) (id : String)
      → opened declared exchange s.ids ≡ some id
      → assign_one declared bases index exchange s ≡ join_turn id s
  unfolding assign_one
  assign_one-opened index exchange s id e = rw (e, assign_one)

  pub assign_one-inherited :
      (index : ℕ) (exchange : Exchange) (s : Assigning)
      → opened declared exchange s.ids ≡ none
      → assign_one declared bases index exchange s
        ≡ push_turn (inherited index (base_at bases index) s.of s.ids) s
  unfolding assign_one
  assign_one-inherited index exchange s e = rw (e, assign_one)

  pub assign_one-Inv :
      (count index : ℕ) (exchange : Exchange) (s : Assigning)
      → Inv count s
      → Inv (suc count) (assign_one declared bases index exchange s)
  assign_one-Inv count index exchange s v = elim (Option-cases (opened declared exchange s.ids)) [
    | inl e ↦ subst (Inv (suc count)) (sym (assign_one-inherited index exchange s e)) (
        push_turn-Inv count s _ (inherited-Fits index (base_at bases index) s.of s.ids v.in_range)
          v)
    | inr (id, e) ↦
        subst (Inv (suc count)) (sym (assign_one-opened index exchange s id e))
          (join_turn-Inv count s id v)
  ]

pub no_turns-Inv : Inv 0 no_turns
no_turns-Inv = record {
  one_each = refl;
  in_range = λ i t e. cc;
  used = λ t h. absurd (omega arith);
  known_id = λ id t e. cc;
  id_known = λ id t e. cc;
}

-- What `assign` promises of the turns of a session with `count` exchanges.
pub record Numbered (count : ℕ) (turns : Turns) : Type 0 where
  pub one_each : length turns.of ≡ count
  pub in_range : (i t : ℕ) → get_elem? turns.of i ≡ some (some t) → t < length turns.ids
  pub distinct :
      (s t : ℕ) (id : String)
      → get_elem? turns.ids s ≡ some id
      → get_elem? turns.ids t ≡ some id
      → s ≡ t
  pub used : (t : ℕ) → t < length turns.ids → (i : ℕ) × (get_elem? turns.of i ≡ some (some t))

Inv-Numbered : (count : ℕ) (s : Assigning) → Inv count s → Numbered count s.turns
Inv-Numbered count s v = record {
  one_each = v.one_each;
  in_range = v.in_range;
  distinct = λ a b id e f. some-injective a b (sym (v.id_known id a e) ∙ v.id_known id b f);
  used = v.used;
}

-- Every exchange gets exactly one answer, a turn that it names is one of the turns, no two turns
-- have the same identity, and no turn is without an exchange.
pub assign-Numbered :
    (exchanges : List Exchange) (bases : List Base)
    → Numbered (length exchanges) (assign exchanges bases)
unfolding assign
assign-Numbered exchanges bases = Inv-Numbered (length exchanges) _ (
    for_each_rule Inv (assign_one (declares_turns exchanges) bases) exchanges
      (λ i exchange s _ v. assign_one-Inv (declares_turns exchanges) bases i i exchange s v)
      no_turns no_turns-Inv)
