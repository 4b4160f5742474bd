-- ===== src/Streams/Segmentation.antt =====
-- usage/streams/segmentation.rs: the cut of a session's exchanges into segments.
use mathlib.Core.Path.{ap}
mod Invariant
mod Joining
mod Opening
mod Partition
pub mod Laws
mod Tests
use abyss_backend.Common.{
  ℕ, zero, suc, ◌+◌, ◌-◌, String, Bool, true, false, not, ◌&&◌, ◌||◌, ◌≡◌, ◌↔◌, List, [], ◌∷◌, ◌++◌,
  map, Option, none, some, ltb, Eq, ◌==◌, string_eq, nat_eq, option_eq, pair_eq, if◌then◌else◌,
  length, get_elem?, get_or, set, replicate, any, keep, range, lookup, insert, contains, for_range,
  for_each, Result, ok, err, to_option, is_some, and_then, map_option, map_or, update,
}
use abyss_backend.Streams.Exchanges.{Exchange}
use abyss_backend.Streams.Bases.{Base, base_at}
use abyss_backend.Streams.Turns.{Turns}

pub data SegmentKind : Type 0 where
  root turn branch : SegmentKind

pub data Group : Type 0 where
  declared : Option String → Group
  line : ℕ → Group

abbrev pub group_eqb : Group → Group → Bool
group_eqb (declared a) (declared b) = a == b
group_eqb (line a) (line b) = a == b
group_eqb _ _ = false

pub group_eqb_iff : (a b : Group) → (group_eqb a b ≡ true) ↔ (a ≡ b)
group_eqb_iff (declared a) (declared b) =
    ((λ h. ap declared ((option_eq.decides a b).0 h)), (λ h. (option_eq.decides a b).1 (cc)))
group_eqb_iff (line a) (line b) =
    ((λ h. ap line ((nat_eq.decides a b).0 h)), (λ h. (nat_eq.decides a b).1 (cc)))
group_eqb_iff (declared a) (line b) = ((λ h. cc), (λ h. cc))
group_eqb_iff (line a) (declared b) = ((λ h. cc), (λ h. cc))

instance abbrev pub group_eq : Eq Group
group_eq = record { test = group_eqb; decides = group_eqb_iff }

-- An exchange's turn and its group.
abbrev pub Key : Type 0
Key = Option ℕ × Group

pub record Segment : Type 0 where
  pub kind : SegmentKind
  pub parent : Option ℕ
  pub exchanges : List ℕ
  pub group : Group
  pub side : Bool

pub record Segmentation : Type 0 where
  pub segments : List Segment
  pub segment_of : List ℕ

-- The base of an exchange, unless it is the exchange itself.
unfoldable pub base_of : List Base → ℕ → Option ℕ
base_of bases index =
    and_then (to_option (base_at bases index))
      λ (found : ℕ × _). if found.0 == index then none else some found.0

-- The base of an exchange that is earlier than it.
unfoldable pub earlier : List Base → ℕ → Option ℕ
unfolding base_of
earlier bases index =
    and_then (base_of bases index) λ base. if ltb base index then some base else none

-- How many exchanges have each exchange as base, and whether any has.
pub record Fanout : Type 0 where
  pub children : List ℕ
  pub continued : List Bool

unfoldable pub count_child : List Base → ℕ → Fanout → Fanout
unfolding base_of
count_child bases index fanout = elim (base_of bases index) [
  | none ↦ fanout
  | some base ↦ record {
    children = update suc base fanout.children;
    continued = set fanout.continued base true;
  }
]

unfoldable pub fanout_of : List Base → ℕ → Fanout
unfolding count_child
fanout_of bases count =
    for_range (count_child bases) 0 count
      (record { children = replicate count 0; continued = replicate count false })

unfoldable pub count_continued_child : List Base → List Bool → ℕ → List ℕ → List ℕ
unfolding base_of
count_continued_child bases continued index counts =
    if get_or continued index false
    then map_or counts (λ base. update suc base counts) (base_of bases index)
    else counts

unfoldable pub continued_children_of : List Base → List Bool → ℕ → List ℕ
unfolding count_continued_child
continued_children_of bases continued count =
    for_range (count_continued_child bases continued) 0 count (replicate count 0)

-- Whether the client declares anything about the session's exchanges.
abbrev pub declares : List Exchange → Bool
declares = any λ (exchange : Exchange).
    is_some exchange.turn_id || is_some exchange.subagent_id || is_some exchange.parent_subagent_id

-- The group of an exchange, from the groups of those before it.
unfoldable pub group_of : Bool → List Base → List Bool → List ℕ → ℕ → Exchange → List Group → Group
unfolding earlier
group_of true bases continued continued_children index exchange groups =
    declared exchange.subagent_id
group_of false bases continued continued_children index exchange groups =
    elim (earlier bases index) [
      | none ↦ line index
      | some base ↦
          if get_or continued index false && ltb 1 (get_or continued_children base 0)
          then line index
          else get_or groups base (line index)
    ]

unfoldable pub groups_of : List Exchange → List Base → List Bool → List ℕ → List Group
unfolding group_of
groups_of exchanges bases continued continued_children =
    for_each
      (λ index exchange groups.
        groups
        ++ group_of (declares exchanges) bases continued continued_children index exchange groups
          ∷ [])
      0 exchanges []

abbrev pub key_at : List (Option ℕ) → List Group → ℕ → Key
key_at turns groups index = (get_or turns index none, get_or groups index (line index))

-- The keys of the exchanges at which the test holds.
abbrev pub keys_where : (ℕ → Bool) → (ℕ → Key) → ℕ → List Key
keys_where test key count = map key (keep test (range 0 count))

-- What the closure `side` says of an exchange.
unfoldable pub looks_side : List Base → List Bool → List ℕ → (ℕ → Key) → List Key → ℕ → Bool
unfolding base_of
looks_side bases continued continued_children key has_continued index =
    not (get_or continued index false)
    && map_or (contains has_continued (key index))
        (λ base. ltb 0 (get_or continued_children base 0)) (base_of bases index)

-- `sides`, with the groups that would have no main line cleared.
unfoldable pub sides_of : List Base → List Bool → List ℕ → (ℕ → Key) → ℕ → List Bool
unfolding looks_side
sides_of bases continued continued_children key count =
    let has_continued = keys_where (λ index. get_or continued index false) key count in
    let looks =
      map (looks_side bases continued continued_children key has_continued) (range 0 count) in
    let with_main = keys_where (λ index. not (get_or looks index false)) key count in
    map (λ index. contains with_main (key index) && get_or looks index false) (range 0 count)

-- What the last loop of `Segmentation::cut` keeps.
pub record Cutting : Type 0 where
  pub segments : List Segment
  pub segment_of : List ℕ
  pub main_of : List (Key × ℕ)

unfoldable pub kind_of : List Base → List ℕ → ℕ → SegmentKind
unfolding earlier
kind_of bases children index = elim (earlier bases index) [
  | none ↦ root
  | some base ↦ if ltb 1 (get_or children base 0) then branch else turn
]

-- `segments[segment].exchanges.push(index)`
abbrev pub push_member : ℕ → Segment → Segment
push_member index segment = record segment { exchanges = segment.exchanges ++ index ∷ [] }

unfoldable pub place : ℕ → ℕ → Cutting → Cutting
place index segment cutting = record cutting {
  segments = update (push_member index) segment cutting.segments;
  segment_of = set cutting.segment_of index segment;
}

-- A new segment, without its first exchange.
unfoldable pub open_segment : List Base → List ℕ → (ℕ → Key) → Bool → ℕ → Cutting → Cutting
unfolding kind_of
open_segment bases children key side index cutting = record cutting {
  segments =
      cutting.segments
      ++ (record {
        kind = kind_of bases children index;
        parent = map_option (λ base. get_or cutting.segment_of base 0) (earlier bases index);
        exchanges = [];
        group = (key index).1;
        side = side;
      })
        ∷ [];
  main_of =
      if side
      then cutting.main_of
      else insert (key index) (length cutting.segments) cutting.main_of;
}

-- One exchange of the last loop.
unfoldable pub cut_one : List Base → List ℕ → (ℕ → Key) → ℕ → Bool → Cutting → Cutting
unfolding place open_segment
cut_one bases children key index side cutting =
    elim (if side then none else lookup (key index) cutting.main_of) [
      | some segment ↦ place index segment cutting
      | none ↦
          place index (length cutting.segments) (open_segment bases children key side index cutting)
    ]

abbrev pub no_segments : ℕ → Cutting
no_segments count = record { segments = []; segment_of = replicate count 0; main_of = [] }

-- The last loop of `Segmentation::cut`.
unfoldable pub cut_all : List Base → List ℕ → (ℕ → Key) → List Bool → Cutting
unfolding cut_one
cut_all bases children key sides =
    for_each (cut_one bases children key) 0 sides (no_segments (length sides))

-- The turn and the group of each exchange: the closure `key`.
unfoldable pub key_of : List Exchange → List Base → Turns → ℕ → Key
unfolding fanout_of continued_children_of groups_of
key_of exchanges bases turns =
    let count = length exchanges in
    let continued = (fanout_of bases count).continued in
    key_at turns.of
      (groups_of exchanges bases continued (continued_children_of bases continued count))

-- Whether each exchange is a side exchange.
unfoldable pub side_flags : List Exchange → List Base → Turns → List Bool
unfolding fanout_of continued_children_of key_of sides_of
side_flags exchanges bases turns =
    let count = length exchanges in
    let continued = (fanout_of bases count).continued in
    sides_of bases continued (continued_children_of bases continued count)
      (key_of exchanges bases turns) count

-- `Segmentation::cut`
unfoldable pub cut : List Exchange → List Base → Turns → Segmentation
unfolding key_of side_flags cut_all
cut exchanges bases turns =
    let cutting =
      cut_all bases (fanout_of bases (length exchanges)).children (key_of exchanges bases turns)
        (side_flags exchanges bases turns) in
    record { segments = cutting.segments; segment_of = cutting.segment_of }
