-- ===== src/Streams/Timeline/Nodes.antt =====
-- The nodes of the turn view of timeline.rs.
use mathlib.Core.List.{Perm}
use mathlib.Core.List.Perm
use abyss_backend.Common.{
  ℕ, true, false, List, [], ◌∷◌, Option, none, some, ◌≡◌, refl, sym, ap, subst, ◌∙◌, nat_eq, inl,
  inr, option_eq, arith, Bool-cases, length, map, range, contains, contains-Perm, Distinct,
  Distinct-sort_by, map_option, All, All-sort, Sorted, sort_by-perm, sort_by-Sorted,
}
use abyss_backend.Streams.Structure.{StreamSegment, SessionStructure}
use abyss_backend.Streams.Timeline.{
  le_option, by_turn, segment_field, turn_node, TurnNode, node_of, grouped_executors, executors_of,
  turn_members, session_turns, SessionTurnsResponse, all_some, count_exchanges,
}
use abyss_backend.Streams.Timeline.Grouping.{
  keys, grouped_from, of_key, grouped-Distinct, contains-grouped, grouped-members,
}
use abyss_backend.Streams.Timeline.Executors.{started_first-perm}

le_option_total : (a b : Option ℕ) → le_option a b ≡ false → le_option b a ≡ true
le_option_total none none h = refl
le_option_total none (some b) h = cc
le_option_total (some a) none h = refl
le_option_total (some a) (some b) h = ground arith

le_option_trans :
    (a b c : Option ℕ) → le_option a b ≡ true → le_option b c ≡ true → le_option a c ≡ true
le_option_trans none b c h k = refl
le_option_trans (some a) none c h k = cc
le_option_trans (some a) (some b) none h k = cc
le_option_trans (some a) (some b) (some c) h k = ground arith

keys-Sorted :
    (structure : SessionStructure) (groups : List (Option ℕ × List ℕ))
    → Sorted (by_turn structure) groups
    → Sorted le_option (keys groups)
keys-Sorted structure [] h = tt
keys-Sorted structure (g ∷ groups) h = (below groups h.0, keys-Sorted structure groups h.1)
  where
    below :
        (more : List (Option ℕ × List ℕ))
        → All (λ (m : Option ℕ × List ℕ). le_option g.0 m.0 ≡ true) more
        → All (λ t. le_option g.0 t ≡ true) (keys more)
    below [] a = tt
    below (m ∷ more) a = (a.0, below more a.1)

contains-alike :
    (xs ys : List (Option ℕ)) (t : Option ℕ) → Perm xs ys → contains xs t ≡ contains ys t
contains-alike xs ys t p = elim (Bool-cases (contains xs t)) [
  | inl here ↦ here ∙ sym (contains-Perm t xs ys p here)
  | inr gone ↦ elim (Bool-cases (contains ys t)) [
    | inl there ↦ absurd (ground (arith, contains-Perm t ys xs (Perm.symm p) there))
    | inr absent ↦ gone ∙ sym absent
  ]
]

module _ (structure : SessionStructure) where
  -- The turn in which a segment begins.
  abbrev pub segment_turn : ℕ → Option ℕ
  segment_turn = segment_field structure (λ (s : StreamSegment). s.turn) none

  abbrev pub all_segments : List ℕ
  all_segments = range 0 (length structure.segments)

  -- The segments that begin in a turn.
  abbrev pub segments_of : Option ℕ → List ℕ
  segments_of turn = of_key segment_turn turn all_segments

  -- A node counts the exchanges of the segments that begin in its turn.
  abbrev pub CountsTurn : TurnNode → Type 0
  CountsTurn node = node.exchange_count ≡ count_exchanges structure (segments_of node.turn)

  abbrev turns_of : List TurnNode → List (Option ℕ)
  turns_of nodes = map (λ (node : TurnNode). node.turn) nodes

  turn_node-total :
      (turn : Option ℕ) (members : List ℕ)
      → members ≡ segments_of turn
      → (node : TurnNode) × (turn_node structure (turn, members) ≡ some node)
        × (node.turn ≡ turn)
        × CountsTurn node
  unfolding turn_node executors_of grouped_executors node_of
  turn_node-total turn members own =
      let (ordered, e, _) = started_first-perm (grouped_executors structure members) in
      (
        node_of structure turn members ordered,
        ap (map_option (node_of structure turn members)) e,
        refl,
        ap (count_exchanges structure) own,
      )

  all_nodes :
      (groups : List (Option ℕ × List ℕ))
      → All (λ (g : Option ℕ × List ℕ). g.1 ≡ segments_of g.0) groups
      → (nodes : List TurnNode) × (all_some (turn_node structure) groups ≡ some nodes)
        × (turns_of nodes ≡ keys groups)
        × All CountsTurn nodes
  unfolding all_some
  all_nodes [] own = ([], refl, refl, tt)
  all_nodes ((turn, members) ∷ groups) own =
      let (node, e, f, c) = turn_node-total turn members own.0 in
      let (nodes, e', f', c') = all_nodes groups own.1 in
      (
        node ∷ nodes,
        rw e (rw e'),
        ap (λ t. t ∷ turns_of nodes) f ∙ ap (λ ts. turn ∷ ts) f',
        (c, c'),
      )

  turn_members-perm : Perm (grouped_from segment_turn [] all_segments) (turn_members structure)
  unfolding turn_members
  turn_members-perm = sort_by-perm (by_turn structure) (grouped_from segment_turn [] all_segments)

  turn_members-own : All (λ (g : Option ℕ × List ℕ). g.1 ≡ segments_of g.0) (turn_members structure)
  unfolding turn_members
  turn_members-own =
      All-sort (λ (g : Option ℕ × List ℕ). g.1 ≡ segments_of g.0) (by_turn structure)
        (grouped_from segment_turn [] all_segments) (grouped-members segment_turn all_segments)

  turn_members-Sorted : Sorted le_option (keys (turn_members structure))
  unfolding turn_members
  turn_members-Sorted = keys-Sorted structure (turn_members structure) (
      sort_by-Sorted (by_turn structure) (λ a b. le_option_total a.0 b.0)
        (λ a b c. le_option_trans a.0 b.0 c.0) (grouped_from segment_turn [] all_segments))

  turn_members-Distinct : Distinct (keys (turn_members structure))
  unfolding turn_members
  turn_members-Distinct =
      Distinct-sort_by (λ (g : Option ℕ × List ℕ). g.0) (by_turn structure)
        (grouped_from segment_turn [] all_segments) (grouped-Distinct segment_turn all_segments)

  contains-turn_members :
      (t : Option ℕ)
      → contains (keys (turn_members structure)) t ≡ contains (map segment_turn all_segments) t
  contains-turn_members t =
      contains-alike (keys (turn_members structure))
        (keys (grouped_from segment_turn [] all_segments)) t
        (Perm.symm (Perm.map (λ (g : Option ℕ × List ℕ). g.0) turn_members-perm))
      ∙ contains-grouped segment_turn all_segments t

  abbrev pub IsTurnView : List TurnNode → Type 0
  IsTurnView nodes =
      Sorted le_option (turns_of nodes)
      × Distinct (turns_of nodes)
      × ((t : Option ℕ) → contains (turns_of nodes) t ≡ contains (map segment_turn all_segments) t)
      × All CountsTurn nodes

  -- The turn view of a session always exists. Its nodes are in the order of their turns, the
  -- segments without a turn first, no turn has two nodes, a turn has a node exactly if a segment
  -- begins in it, and a node counts the exchanges of exactly those segments.
  pub session_turns-total :
      (session_pk : ℕ)
      → (response : SessionTurnsResponse) × (session_turns structure session_pk ≡ some response)
        × IsTurnView response.turns
  unfolding session_turns
  session_turns-total session_pk =
      let (nodes, e, f, c) = all_nodes (turn_members structure) turn_members-own in
      (
        record { session_pk = session_pk; turns = nodes },
        rw e,
        (
          subst (Sorted le_option) (sym f) turn_members-Sorted,
          subst Distinct (sym f) turn_members-Distinct,
          (λ t. ap (λ ts. contains ts t) f ∙ contains-turn_members t),
          c,
        ),
      )
