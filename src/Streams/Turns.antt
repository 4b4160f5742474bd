-- ===== src/Streams/Turns.antt =====
-- usage/streams/turns.rs: the turn of every exchange of one session.
mod Numbers
mod Joins
mod Opening
mod Openers
mod Tests
use abyss_backend.Common.{
  ℕ, suc, ◌+◌, ◌-◌, min, String, Bool, ◌&&◌, ◌||◌, List, [], ◌∷◌, ◌++◌, Option, none, some, ltb,
  ◌==◌, string_eq, nat_eq, if◌then◌else◌, length, get_or, any, lookup, insert, for_each, Result, ok,
  err, is_some,
}
use abyss_backend.Streams.Exchanges.{Exchange, opens_turn, continues_context}
use abyss_backend.Streams.Bases.{Base, base_at}

pub record Turns : Type 0 where
  pub of : List (Option ℕ)
  pub ids : List String

-- What the loop of `Turns::assign` keeps.
pub record Assigning : Type 0 where
  pub turns : Turns
  pub open turns use *
  pub known : List (String × ℕ)

abbrev pub no_turns : Assigning
no_turns = record { turns = record { of = []; ids = [] }; known = [] }

-- Whether the client declares the turns of the session.
abbrev pub declares_turns : List Exchange → Bool
declares_turns = any (λ (exchange : Exchange). is_some exchange.turn_id)

-- The identity of the turn that an exchange opens or declares.
unfoldable pub opened : Bool → Exchange → List String → Option String
unfolding opens_turn continues_context
opened declared exchange ids =
    if declared
    then exchange.turn_id
    else if opens_turn exchange && (continues_context exchange || length ids == 0)
    then some exchange.id
    else none

-- `ids.len().checked_sub(1)`
abbrev pub latest : List String → Option ℕ
latest ids = if length ids == 0 then none else some (length ids - 1)

-- The turn of an exchange that opens none.
unfoldable pub inherited : ℕ → Base → List (Option ℕ) → List String → Option ℕ
inherited index (ok (base, rule)) of ids =
    if ltb base index then get_or of base none else latest ids
inherited index (err reason) of ids = latest ids

abbrev pub push_turn : Option ℕ → Assigning → Assigning
push_turn turn state = record state { turns = record state.turns { of = state.of ++ turn ∷ [] } }

-- `known.entry(id).or_insert_with(…)`, and the push of the turn.
unfoldable pub join_turn : String → Assigning → Assigning
join_turn id state = elim (lookup id state.known) [
  | some turn ↦ push_turn (some turn) state
  | none ↦
      let turn = length state.ids in
      push_turn (some turn) (record {
        turns = record state.turns { ids = state.ids ++ id ∷ [] };
        known = insert id turn state.known;
      })
]

-- One exchange of the loop of `Turns::assign`.
unfoldable pub assign_one : Bool → List Base → ℕ → Exchange → Assigning → Assigning
unfolding opened inherited join_turn
assign_one declared bases index exchange state = elim (opened declared exchange state.ids) [
  | some id ↦ join_turn id state
  | none ↦ push_turn (inherited index (base_at bases index) state.of state.ids) state
]

-- `Turns::assign`
unfoldable pub assign : List Exchange → List Base → Turns
unfolding assign_one
assign exchanges bases =
    (for_each (assign_one (declares_turns exchanges) bases) 0 exchanges no_turns).turns

abbrev pub i64_max : ℕ
i64_max = 9223372036854775807

-- `Turns::number`: the conversion to `i64` and the addition both stop at its maximum.
unfoldable pub number : ℕ → ℕ
number turn = if ltb i64_max turn then i64_max else min (turn + 1) i64_max
