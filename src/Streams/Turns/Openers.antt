-- ===== src/Streams/Turns/Openers.antt =====
-- Which turn `Turns::assign` of turns.rs gives to an exchange.
use abyss_backend.Common.{
  ℕ, suc, ◌<◌, String, Bool, List, [], ◌∷◌, ◌++◌, Option, none, some, ◌≡◌, refl, sym, ap, subst,
  ◌∙◌, inl, inr, nat_eq, ==-cases, string_eq, Option-cases, arith, length, get_elem?, get_or,
  get_elem?-append_some, get_elem?-append_end, lt-of_get_elem?, get_or-append_lt, get_or-append_end,
  for_each, for_each_rule, ok,
}
use abyss_backend.Streams.Exchanges.{Exchange}
use abyss_backend.Streams.Bases.{Base, BaseRule, base_at}
use abyss_backend.Streams.Turns.{
  Turns, Assigning, no_turns, declares_turns, opened, inherited, push_turn, join_turn, assign_one,
  assign,
}
use abyss_backend.Streams.Turns.Numbers.{
  Inv, no_turns-Inv, assign_one-Inv, assign_one-opened, assign_one-inherited,
}
use abyss_backend.Streams.Turns.Joins.{Joined, join_turn-Joined, inherited-earlier}
use abyss_backend.Streams.Turns.Opening.{
  opens_at, IsSettled, opened-opens_at, none-IsSettled, some-IsSettled,
}

-- An exchange that opened the turn `t` under the identity `id`.
pub record Opener (exchanges : List Exchange) (declared : Bool) (of : List (Option ℕ)) (t : ℕ)
    (id : String) : Type 0 where
  pub index : ℕ
  pub exchange : Exchange
  pub here : get_elem? exchanges index ≡ some exchange
  pub in_turn : get_elem? of index ≡ some (some t)
  pub before : List String
  pub opens : opened declared exchange before ≡ some id

Opener-grows :
    (exchanges : List Exchange) (declared : Bool) (of more : List (Option ℕ)) (t : ℕ) (id : String)
    → Opener exchanges declared of t id
    → Opener exchanges declared (of ++ more) t id
Opener-grows exchanges declared of more t id o = record {
  index = o.index;
  exchange = o.exchange;
  here = o.here;
  in_turn = get_elem?-append_some of more o.index (some t) o.in_turn;
  before = o.before;
  opens = o.opens;
}

module _ (exchanges : List Exchange) (declared : Bool) (bases : List Base) where
  -- The exchange at `i` stands in the turn `id`.
  abbrev StandsIn : Turns → ℕ → String → Type 0
  StandsIn turns i id =
      (t : ℕ) × (get_elem? turns.of i ≡ some (some t)) × (get_elem? turns.ids t ≡ some id)

  abbrev OpenersStand : ℕ → Turns → Type 0
  OpenersStand count turns =
      (i : ℕ) (e : Exchange) (id : String)
      → i < count
      → get_elem? exchanges i ≡ some e
      → opens_at declared exchanges i e ≡ some id
      → StandsIn turns i id

  abbrev AllOpened : Turns → Type 0
  AllOpened turns =
      (t : ℕ) (id : String)
      → get_elem? turns.ids t ≡ some id
      → Opener exchanges declared turns.of t id

  abbrev OthersFollow : ℕ → Turns → Type 0
  OthersFollow count turns =
      (i : ℕ) (e : Exchange) (b : ℕ) (rule : BaseRule)
      → i < count
      → get_elem? exchanges i ≡ some e
      → opens_at declared exchanges i e ≡ none
      → base_at bases i ≡ ok (b, rule)
      → b < i
      → get_or turns.of i none ≡ get_or turns.of b none

  record Traced (count : ℕ) (s : Assigning) : Type 0 where
    pub inv : Inv count s
    pub openers_stand : OpenersStand count s.turns
    pub all_opened : AllOpened s.turns
    pub others_follow : OthersFollow count s.turns
    pub settled : IsSettled declared exchanges count s.turns.ids

  -- What one more answer leaves alone.
  follow_on :
      (count : ℕ) (of : List (Option ℕ)) (turn : Option ℕ) (i b : ℕ)
      → length of ≡ count
      → i < count
      → b < i
      → get_or of i none ≡ get_or of b none
      → get_or (of ++ turn ∷ []) i none ≡ get_or (of ++ turn ∷ []) b none
  follow_on count of turn i b l lt lb h =
      get_or-append_lt of (turn ∷ []) i none (omega arith)
      ∙ h
      ∙ sym (get_or-append_lt of (turn ∷ []) b none (omega arith))

  Joined-Traced :
      (count : ℕ) (exchange : Exchange) (id : String) (s s' : Assigning)
      → get_elem? exchanges count ≡ some exchange
      → opened declared exchange s.ids ≡ some id
      → Inv (suc count) s'
      → Joined id s s'
      → Traced count s
      → Traced (suc count) s'
  Joined-Traced count exchange id s s' here opens v j h = record {
    inv = v;
    openers_stand = stand;
    all_opened = sources;
    others_follow = follow;
    settled =
        some-IsSettled declared exchanges count exchange s.ids here h.settled id s'.ids j.turn opens
          j.identity;
  }
    where
      last : get_elem? s'.of count ≡ some (some j.turn)
      last = rw (j.of_grows) (get_elem?-append_end s.of (some j.turn) count (sym h.inv.one_each))

      agrees : opened declared exchange s.ids ≡ opens_at declared exchanges count exchange
      agrees = opened-opens_at declared exchanges count exchange s.ids here h.settled

      stand : OpenersStand (suc count) s'.turns
      stand i e k lt at opens_k = elim (==-cases i count) [
        | inl (_, q) ↦
            let same : e ≡ exchange = cc in
            let same_id : k ≡ id = cc (agrees, q) in (j.turn, rw q last, rw same_id j.identity)
        | inr (_, q) ↦
            let (t, m, n) = h.openers_stand i e k (omega arith) at opens_k in
            (
              t,
              rw (j.of_grows) (get_elem?-append_some s.of (some j.turn ∷ []) i (some t) m),
              rw (j.ids_grow) (get_elem?-append_some s.ids j.more t k n),
            )
      ]

      sources : AllOpened s'.turns
      sources t k e = elim (j.new_ids t k e) [
        | inl old ↦
            rw (j.of_grows)
              (Opener-grows exchanges declared s.of (some j.turn ∷ []) t k (h.all_opened t k old))
        | inr (q, q') ↦ record {
          index = count;
          exchange = exchange;
          here = here;
          in_turn = rw q last;
          before = s.ids;
          opens = rw q' opens;
        }
      ]

      follow : OthersFollow (suc count) s'.turns
      follow i e b rule lt at none_opened base lb = elim (==-cases i count) [
        | inl (_, q) ↦ let same : e ≡ exchange = cc in absurd (cc (agrees, q))
        | inr (_, q) ↦ rw (j.of_grows) (
            follow_on count s.of (some j.turn) i b h.inv.one_each (omega arith) lb
              (h.others_follow i e b rule (omega arith) at none_opened base lb))
      ]

  pushed-Traced :
      (count : ℕ) (exchange : Exchange) (s : Assigning)
      → get_elem? exchanges count ≡ some exchange
      → opened declared exchange s.ids ≡ none
      → Inv (suc count) (push_turn (inherited count (base_at bases count) s.of s.ids) s)
      → Traced count s
      → Traced (suc count) (push_turn (inherited count (base_at bases count) s.of s.ids) s)
  pushed-Traced count exchange s here none_opened v h = record {
    inv = v;
    openers_stand = λ i e k lt at opens_k. elim (==-cases i count) [
      | inl (_, q) ↦ let same : e ≡ exchange = cc in absurd (cc (agrees, q))
      | inr (_, q) ↦
          let (t, m, n) = h.openers_stand i e k (omega arith) at opens_k in
          (t, get_elem?-append_some s.of (turn ∷ []) i (some t) m, n)
    ];
    all_opened = λ t k e. Opener-grows exchanges declared s.of (turn ∷ []) t k (h.all_opened t k e);
    others_follow = λ i e b rule lt at others base lb. elim (==-cases i count) [
      | inl (_, q) ↦
          get_or-append_end s.of turn i none (q ∙ sym h.inv.one_each)
          ∙ inherits b rule (rw (← q) base) (omega arith)
          ∙ sym (get_or-append_lt s.of (turn ∷ []) b none (omega (arith, h.inv.one_each)))
      | inr (_, q) ↦
          follow_on count s.of turn i b h.inv.one_each (omega arith) lb
            (h.others_follow i e b rule (omega arith) at others base lb)
    ];
    settled = none-IsSettled declared exchanges count exchange s.ids here h.settled none_opened;
  }
    where
      agrees : opened declared exchange s.ids ≡ opens_at declared exchanges count exchange
      agrees = opened-opens_at declared exchanges count exchange s.ids here h.settled

      turn : Option ℕ
      turn = inherited count (base_at bases count) s.of s.ids

      inherits :
          (b : ℕ) (rule : BaseRule)
          → base_at bases count ≡ ok (b, rule)
          → b < count
          → turn ≡ get_or s.of b none
      inherits b rule e lt =
          ap (λ x. inherited count x s.of s.ids) e ∙ inherited-earlier count b rule s.of s.ids lt

  assign_one-Traced :
      (count : ℕ) (exchange : Exchange) (s : Assigning)
      → get_elem? exchanges count ≡ some exchange
      → Traced count s
      → Traced (suc count) (assign_one declared bases count exchange s)
  assign_one-Traced count exchange s here h =
      let v = assign_one-Inv declared bases count count exchange s h.inv in
      elim (Option-cases (opened declared exchange s.ids)) [
        | inl e ↦
            let step = assign_one-inherited declared bases count exchange s e in
            subst (Traced (suc count)) (sym step)
              (pushed-Traced count exchange s here e (subst (Inv (suc count)) step v) h)
        | inr (id, e) ↦
            let step = assign_one-opened declared bases count exchange s id e in
            subst (Traced (suc count)) (sym step) (
              Joined-Traced count exchange id s (join_turn id s) here e
                (subst (Inv (suc count)) step v) (join_turn-Joined count s id h.inv) h)
      ]

  no_turns-Traced : Traced 0 no_turns
  no_turns-Traced = record {
    inv = no_turns-Inv;
    openers_stand = λ i e id lt. absurd (omega arith);
    all_opened = λ t id e. cc;
    others_follow = λ i e b rule lt. absurd (omega arith);
    settled = λ d. refl;
  }

  assign_all-Traced :
      Traced (length exchanges) (for_each (assign_one declared bases) 0 exchanges no_turns)
  assign_all-Traced =
      for_each_rule Traced (assign_one declared bases) exchanges
        (λ i exchange s here h. assign_one-Traced i exchange s here h) no_turns no_turns-Traced

module _ (exchanges : List Exchange) (bases : List Base) where
  abbrev declared_turns : Bool
  declared_turns = declares_turns exchanges

  -- An exchange that opens or declares a turn stands in the turn of that identity. Where no exchange
  -- of the session declares a turn, an exchange opens one under its own id if its request opens a
  -- turn and it continues its context or is the first of the session whose request opens a turn.
  pub assign-Opens :
      (i : ℕ) (e : Exchange) (id : String)
      → get_elem? exchanges i ≡ some e
      → opens_at (declares_turns exchanges) exchanges i e ≡ some id
      → (t : ℕ) × (get_elem? (assign exchanges bases).of i ≡ some (some t))
        × (get_elem? (assign exchanges bases).ids t ≡ some id)
  unfolding assign
  assign-Opens i e id at opens =
      (assign_all-Traced exchanges declared_turns bases).openers_stand i e id
        (lt-of_get_elem? exchanges i at) at opens

  -- Every turn was opened: some exchange of the session stands in it and opened or declared its
  -- identity.
  pub assign-Opener :
      (t : ℕ) (id : String)
      → get_elem? (assign exchanges bases).ids t ≡ some id
      → Opener exchanges (declares_turns exchanges) (assign exchanges bases).of t id
  unfolding assign
  assign-Opener = (assign_all-Traced exchanges declared_turns bases).all_opened

  -- An exchange that opens no turn and has an earlier exchange as base is in its base's turn.
  pub assign-OpensNone :
      (i : ℕ) (e : Exchange) (b : ℕ) (rule : BaseRule)
      → get_elem? exchanges i ≡ some e
      → opens_at (declares_turns exchanges) exchanges i e ≡ none
      → base_at bases i ≡ ok (b, rule)
      → b < i
      → get_or (assign exchanges bases).of i none ≡ get_or (assign exchanges bases).of b none
  unfolding assign
  assign-OpensNone i e b rule at =
      (assign_all-Traced exchanges declared_turns bases).others_follow i e b rule
        (lt-of_get_elem? exchanges i at) at
