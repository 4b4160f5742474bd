-- ===== src/Streams/Timeline.antt =====
-- usage/streams/timeline.rs: the turn view of one session.
mod Stack
mod Order
mod Grouping
mod Executors
mod Nodes
mod Tests
use mathlib.Core.List.{foldl}
use abyss_backend.Common.{
  ℕ, zero, suc, ◌+◌, ◌*◌, String, Bool, true, false, not, ◌&&◌, ◌||◌, List, [], ◌∷◌, ◌++◌, map,
  Option, none, some, ltb, leb, ◌==◌, string_eq, nat_eq, option_eq, if◌then◌else◌, length,
  get_elem?, get_or, set, replicate, keep, first, position, range, for_range, sort_by, is_some,
  is_none, unwrap_or, and_then, map_option, map_or, Eq, pair_eq,
}
use abyss_backend.Streams.Exchanges.{Exchange}
use abyss_backend.Streams.Segmentation.{Group, declared, line, group_eq, Segment}
use abyss_backend.Streams.Structure.{
  epoch, EntryLabel, StreamSegment, SessionStructure, earliest, latest_time, read_at, members_of,
  label_at, base_index,
}

-- One executor's segments, as indices into the session's segments.
pub record Executor : Type 0 where
  pub subagent_id : Option String
  pub parent_subagent_id : Option String
  pub main : List ℕ
  pub side : List ℕ

-- An executor's declared parent among the executors.
unfoldable pub parent_of : List Executor → ℕ → Option ℕ
parent_of executors index = and_then (get_elem? executors index) λ executor.
    and_then executor.parent_subagent_id λ parent.
      and_then (position (λ (e : Executor). e.subagent_id == some parent) executors)
        λ at. if at == index then none else some at

-- What the loops of `started_first` keep.
pub record Placing : Type 0 where
  pub order : List ℕ
  pub placed : List Bool

-- The children to push below `next`, the earliest on top.
abbrev pub waiting : List (Option ℕ) → ℕ → List Bool → List ℕ
waiting parents next placed =
    keep (λ child. get_or parents child none == some next && not (get_or placed child false))
      (range 0 (length parents))

-- `while let Some(next) = stack.pop() { … }`; the head of the list is the top of the stack. The
-- fuel bounds the rounds, and `none` means that it ran out.
unfoldable pub drain : ℕ → List (Option ℕ) → List ℕ → Placing → Option Placing
drain fuel parents [] state = some state
drain zero parents (next ∷ stack) state = none
drain (suc fuel) parents (next ∷ stack) state =
    let skip = drain fuel parents stack state in
    let placed = set state.placed next true in
    let visit =
      drain fuel parents (waiting parents next placed ++ stack)
        (record { order = state.order ++ next ∷ []; placed = placed }) in
    if get_or state.placed next false then skip else visit

-- The fuel of the loops of `started_first`: a round for each executor, and one for each child that
-- a round may push.
abbrev pub enough_fuel : List (Option ℕ) → ℕ
enough_fuel parents = suc (length parents + length parents * length parents)

-- One round of the loops over `top_only` and `index`.
unfoldable pub enter : List (Option ℕ) → Bool → ℕ → Option Placing → Option Placing
unfolding drain
enter parents top_only index state = and_then state λ s.
    if get_or s.placed index false || top_only && is_some (get_or parents index none)
    then some s
    else drain (enough_fuel parents) parents (index ∷ []) s

unfoldable pub depth_first : List (Option ℕ) → Option Placing
unfolding enter
depth_first parents =
    let count = length parents in
    let start : Option Placing = some (record { order = []; placed = replicate count false }) in
    for_range (enter parents false) 0 count (for_range (enter parents true) 0 count start)

-- `slots[index].take()` for each index of the order.
unfoldable pub take_slots {ℓ} : {A : Type ℓ} → List ℕ → List (Option A) → List A
take_slots [] slots = []
take_slots (index ∷ order) slots =
    let rest = take_slots order (set slots index none) in
    map_or rest (λ executor. executor ∷ rest) (get_or slots index none)

-- `started_first`
unfoldable pub started_first : List Executor → Option (List Executor)
unfolding parent_of depth_first take_slots
started_first executors =
    map_option (λ (s : Placing). take_slots s.order (map some executors))
      (depth_first (map (parent_of executors) (range 0 (length executors))))

-- `match groups.iter_mut().find(…) { Some(…) => push, None => push a new entry }`
unfoldable pub push_to {ℓ} : {K : Type ℓ} ⦃e : Eq K⦄ → K → ℕ → List (K × List ℕ) → List (K × List ℕ)
push_to key index [] = (key, index ∷ []) ∷ []
push_to key index ((k, members) ∷ rest) =
    if k == key then (k, members ++ index ∷ []) ∷ rest else (k, members) ∷ push_to key index rest

abbrev pub le_option : Option ℕ → Option ℕ → Bool
le_option none b = true
le_option (some a) none = false
le_option (some a) (some b) = leb a b

abbrev pub is_sub_agent : Group → Bool
is_sub_agent (declared (some subagent)) = true
is_sub_agent _ = false

abbrev pub subagent_of : Group → Option String
subagent_of (declared subagent) = subagent
subagent_of (line index) = none

pub record TurnExecutor : Type 0 where
  pub subagent_id : Option String
  pub parent_subagent_id : Option String
  pub main : List String
  pub side : List String
  pub exchange_count : ℕ
  pub start : ℕ

pub record TurnNode : Type 0 where
  pub turn : Option ℕ
  pub turn_id : Option String
  pub start : ℕ
  pub end : ℕ
  pub exchange_count : ℕ
  pub label : Option EntryLabel
  pub new_context : Bool
  pub executors : List TurnExecutor

pub record SessionTurnsResponse : Type 0 where
  pub session_pk : ℕ
  pub turns : List TurnNode

unfoldable pub sum : List ℕ → ℕ
sum [] = 0
sum (n ∷ ns) = n + sum ns

-- The first `some` of a list of options, and all of them.
unfoldable pub find_map {ℓ κ} : {A : Type ℓ} {B : Type κ} → (A → Option B) → List A → Option B
find_map f [] = none
find_map f (x ∷ xs) = let rest = find_map f xs in elim (f x) [ none ↦ rest | some b ↦ some b ]

unfoldable pub all_some {ℓ κ} :
    {A : Type ℓ} {B : Type κ} → (A → Option B) → List A → Option (List B)
all_some f [] = some []
all_some f (x ∷ xs) = and_then (f x) λ b. map_option (λ bs. b ∷ bs) (all_some f xs)

module _ (structure : SessionStructure) where
  open structure use {exchanges, bases, segmentation, segments}

  abbrev pub segment_field {ℓ} : {A : Type ℓ} → (StreamSegment → A) → A → ℕ → A
  segment_field field default segment = map_or default field (get_elem? segments segment)

  abbrev pub start_of : ℕ → ℕ
  start_of = segment_field (λ s. s.start) epoch

  abbrev pub is_side : ℕ → Bool
  is_side segment = map_or false (λ (s : Segment). s.side) (get_elem? segmentation.segments segment)

  abbrev pub group_at : ℕ → Group
  group_at segment =
      map_or (declared none) (λ (s : Segment). s.group) (get_elem? segmentation.segments segment)

  -- `exchange_count`
  unfoldable pub count_exchanges : List ℕ → ℕ
  unfolding sum
  count_exchanges members = sum (map (segment_field (λ s. s.exchange_count) 0) members)

  -- `heads`
  abbrev pub heads : List ℕ → List String
  heads = map (segment_field (λ s. s.head) "")

  -- `new_context`
  unfoldable pub new_context : Option ℕ → Bool
  new_context segment =
      is_none
        (and_then segment λ s. and_then (first (members_of segmentation s)) (base_index bases))

  abbrev pub by_start : ℕ → ℕ → Bool
  by_start a b = ltb (start_of a) (start_of b) || start_of a == start_of b && leb a b

  abbrev pub group_start : Group × List ℕ → Option ℕ
  group_start (group, members) = map_option start_of (first members)

  -- By whether the group is a sub-agent's, then by the start of its first segment.
  abbrev pub main_first : Group × List ℕ → Group × List ℕ → Bool
  main_first (a, xs) (b, ys) =
      if is_sub_agent a
      then is_sub_agent b && le_option (group_start (a, xs)) (group_start (b, ys))
      else is_sub_agent b || le_option (group_start (a, xs)) (group_start (b, ys))

  unfoldable pub executor_of : Group × List ℕ → Executor
  executor_of (group, members) = record {
    subagent_id = subagent_of group;
    parent_subagent_id = and_then (subagent_of group) λ _. and_then (first members) λ segment.
        and_then (first (members_of segmentation segment))
          λ exchange. read_at (λ (e : Exchange). e.parent_subagent_id) none exchanges exchange;
    main = keep (λ segment. not (is_side segment)) members;
    side = keep is_side members;
  }

  unfoldable pub group_members : List ℕ → List (Group × List ℕ)
  unfolding push_to
  group_members = foldl (λ groups segment. push_to (group_at segment) segment groups) []

  -- The executors of a turn's segments, the main agent's groups first, each by its start.
  unfoldable pub grouped_executors : List ℕ → List Executor
  unfolding group_members executor_of
  grouped_executors members = map executor_of (
      sort_by main_first
        (map (λ (g : Group × List ℕ). (g.0, sort_by by_start g.1)) (group_members members)))

  -- `executors`
  unfoldable pub executors_of : List ℕ → Option (List Executor)
  unfolding grouped_executors started_first
  executors_of members = started_first (grouped_executors members)

  unfoldable pub turn_executor : Executor → TurnExecutor
  unfolding count_exchanges
  turn_executor executor =
      let everything = executor.main ++ executor.side in
      record {
        subagent_id = executor.subagent_id;
        parent_subagent_id = executor.parent_subagent_id;
        main = heads executor.main;
        side = heads executor.side;
        exchange_count = count_exchanges everything;
        start = earliest (map start_of everything);
      }

  -- The label of the first labelled exchange on the main line of the first executor.
  unfoldable pub turn_label : Option Executor → Option EntryLabel
  unfolding find_map label_at
  turn_label executor = and_then executor λ e.
      find_map (λ segment. find_map (label_at exchanges) (members_of segmentation segment)) e.main

  -- The node of a turn with these segments and executors.
  unfoldable pub node_of : Option ℕ → List ℕ → List Executor → TurnNode
  unfolding turn_executor turn_label new_context count_exchanges
  node_of turn members executors = record {
    turn = turn;
    turn_id = and_then (first members) (segment_field (λ s. s.turn_id) none);
    start = earliest (map start_of members);
    end = latest_time (map (segment_field (λ s. s.end) epoch) members);
    exchange_count = count_exchanges members;
    label = turn_label (first executors);
    new_context = new_context (and_then (first executors) (λ (e : Executor). first e.main));
    executors = map turn_executor executors;
  }

  -- `turn_node`
  unfoldable pub turn_node : Option ℕ × List ℕ → Option TurnNode
  unfolding executors_of node_of
  turn_node (turn, members) = map_option (node_of turn members) (executors_of members)

  abbrev pub by_turn : Option ℕ × List ℕ → Option ℕ × List ℕ → Bool
  by_turn a b = le_option a.0 b.0

  unfoldable pub turn_members : List (Option ℕ × List ℕ)
  unfolding push_to
  turn_members = sort_by by_turn (
      foldl (λ turns segment. push_to (segment_field (λ s. s.turn) none segment) segment turns) []
        (range 0 (length segments)))

  -- `session_turns`
  unfoldable pub session_turns : ℕ → Option SessionTurnsResponse
  unfolding turn_members turn_node all_some
  session_turns session_pk =
      map_option (λ turns. record { session_pk = session_pk; turns = turns })
        (all_some turn_node turn_members)
