-- ===== src/Streams/Facts.antt =====
-- usage/streams/facts.rs: what ingest reads from the entries of one event. The SHA-256 of a text
-- in lowercase hex is the parameter `digest`; the entries are those of a completely decoded
-- conversation, and none otherwise.
mod Labels
pub mod Identities
mod Tests
use Prim.Native.Char.{Char, code}
use Prim.Native.String.{◌++◌ as str_append}
use mathlib.Core.List.{reverse, flat_map, filter_map}
use abyss_backend.Common.{
  ℕ, zero, suc, ◌+◌, min, String, Bool, true, false, not, ◌&&◌, ◌||◌, List, [], ◌∷◌, ◌++◌, map,
  Option, none, some, ltb, leb, ◌==◌, string_eq, nat_eq, if◌then◌else◌, get_elem?, take, drop, any,
  keep, first, last, rposition, is_some, is_none, or_else, unwrap_or, to_list, and_then, map_option,
  map_or, contains,
}
use abyss_backend.Streams.Events.{Entry, SkeletonEntry, Label, RequestFacts, ResponseFacts}

abbrev pub i32_max : ℕ
i32_max = 2147483647

-- `i32::try_from(n).unwrap_or(i32::MAX)`
abbrev pub to_i32 : ℕ → ℕ
to_i32 n = min n i32_max

abbrev pub model_roles : List String
model_roles = "assistant" ∷ "reasoning" ∷ "tool_call" ∷ []

abbrev pub text_roles : List String
text_roles = "assistant" ∷ "reasoning" ∷ []

abbrev pub is_model_role : String → Bool
is_model_role role = contains model_roles role

unfoldable pub is_model_side : Entry → Bool
is_model_side entry = is_model_role entry.role

-- `char::is_whitespace`: the characters of the Unicode property White_Space.
abbrev pub is_whitespace : Char → Bool
is_whitespace c =
    let n = code c in
    (leb 9 n && leb n 13)
    || n == 32
    || n == 133
    || n == 160
    || n == 5760
    || (leb 8192 n && leb n 8202)
    || n == 8232
    || n == 8233
    || n == 8239
    || n == 8287
    || n == 12288

-- `text.trim().is_empty()`
unfoldable pub is_blank : String → Bool
is_blank String.[] = true
is_blank (String.◌∷◌ c s) = is_whitespace c && is_blank s

unfoldable pub is_empty : String → Bool
is_empty String.[] = true
is_empty (String.◌∷◌ c s) = false

-- `char::len_utf16`
unfoldable pub len_utf16 : Char → ℕ
len_utf16 c = if ltb (code c) 65536 then 1 else 2

-- `text.encode_utf16().count()`
unfoldable pub utf16_length : String → ℕ
unfolding len_utf16
utf16_length String.[] = 0
utf16_length (String.◌∷◌ c s) = len_utf16 c + utf16_length s

abbrev pub label_text_units : ℕ
label_text_units = 50

-- The text up to the first character at which the count of units passes the limit.
unfoldable pub label_text : ℕ → String → String
unfolding len_utf16
label_text units String.[] = String.[]
label_text units (String.◌∷◌ c s) =
    let rest = label_text (units + len_utf16 c) s in
    if ltb label_text_units (units + len_utf16 c) then String.[] else String.◌∷◌ c rest

-- A `user` entry with text.
unfoldable pub has_user_text : Entry → Bool
unfolding is_empty
has_user_text entry = entry.role == "user" && not (is_empty entry.text)

-- `Label::of`
unfoldable pub label_of : List Entry → ℕ → Option Label
unfolding has_user_text utf16_length label_text
label_of entries new_from = and_then (rposition has_user_text (drop new_from entries)) λ offset.
    map_option
      (λ entry. record {
        index = to_i32 (new_from + offset);
        text = label_text 0 entry.text;
        length = to_i32 (utf16_length entry.text);
      })
      (get_elem? entries (new_from + offset))

-- `Label::from_columns`: none unless all three are there.
unfoldable pub label_from_columns : Option ℕ → Option String → Option ℕ → Option Label
label_from_columns (some index) (some text) (some length) =
    some (record { index = index; text = text; length = length })
label_from_columns _ _ _ = none

unfoldable pub is_result : Entry → Bool
is_result entry = entry.role == "tool_result"

unfoldable pub starts_turn : List Entry → Bool
unfolding has_user_text is_result
starts_turn new_part = any has_user_text new_part && not (any is_result new_part)

unfoldable pub result_ids : List Entry → List String
unfolding is_result
result_ids entries = filter_map (λ entry. entry.call_id) (keep is_result entries)

abbrev pub item_prefix : String
item_prefix = "item:"

abbrev pub text_prefix : String
text_prefix = "text:"

unfoldable pub item : Entry → Option String
unfolding is_model_side
item entry = if is_model_side entry then map_option (str_append item_prefix) entry.item_id else none

module _ (digest : String → String) where
  unfoldable pub text_identity : Entry → Option String
  unfolding is_blank
  text_identity entry =
      if contains text_roles entry.role
        && is_none entry.call_id
        && is_none entry.item_id
        && not (is_blank entry.text)
      then some
          (str_append text_prefix (str_append entry.role (str_append ":" (digest entry.text))))
      else none

  -- The call id of a `tool_call` entry.
  unfoldable pub call : Entry → Option String
  call entry = if entry.role == "tool_call" then entry.call_id else none

  unfoldable pub identities : Entry → List String
  unfolding item call text_identity
  identities entry = to_list (item entry) ++ to_list (call entry) ++ to_list (text_identity entry)

  unfoldable pub key : Entry → Option String
  unfolding item text_identity
  key entry = or_else entry.call_id (or_else (item entry) (text_identity entry))

  unfoldable pub skeleton : List Entry → List SkeletonEntry
  unfolding key
  skeleton entries = map (λ entry. (entry.role, key entry)) entries

  abbrev pub has_identity : Entry → Bool
  has_identity entry = is_some (first (identities entry))

  unfoldable pub all_identities : List Entry → List String
  unfolding identities
  all_identities entries = flat_map identities entries

  -- The first identity that is not `last`.
  abbrev pub find_other : String → List String → Option String
  find_other other [] = none
  find_other other (id ∷ ids) =
      let rest = find_other other ids in if id == other then rest else some id

  -- The identities of the entries, last to first.
  unfoldable pub identities_backwards : List Entry → List String
  unfolding identities
  identities_backwards entries = flat_map (λ entry. reverse (identities entry)) (reverse entries)

  -- Where the last run begins: after the last entry that is neither model output nor a tool result.
  unfoldable pub run_start : List Entry → ℕ → ℕ
  unfolding is_model_side is_result
  run_start entries last_model = map_or 0 suc (
      rposition (λ entry. not (is_model_side entry) && not (is_result entry))
        (take last_model entries))

  unfoldable pub last_run : List Entry → ℕ → List Entry
  unfolding run_start
  last_run entries last_model = drop (run_start entries last_model) (take (suc last_model) entries)

  -- The facts of a request whose last model-side entry stands at `last_model`.
  unfoldable pub read_continuing : List Entry → ℕ → RequestFacts
  unfolding last_run identities identities_backwards starts_turn label_of is_model_side
  read_continuing entries last_model =
      let start = run_start entries last_model in
      let run = last_run entries last_model in
      let held = rposition has_identity run in
      let last_id : Option String =
        and_then held (λ at. and_then (get_elem? run at) (λ entry. last (identities entry))) in
      record {
        new_from = to_i32 (suc last_model);
        last_identity = last_id;
        previous_identity = and_then held λ at.
            and_then last_id
              λ id. find_other id (identities_backwards (take (suc (start + at)) entries));
        trailing =
            map_or [] (λ at. map (λ entry. entry.role) (keep is_model_side (drop (suc at) run)))
              held;
        result_ids = [];
        starts_turn = starts_turn (drop (suc last_model) entries);
        label = label_of entries (suc last_model);
      }

  -- `RequestFacts::read`
  unfoldable pub read_request : List Entry → RequestFacts
  unfolding is_model_side read_continuing result_ids
  read_request entries = elim (rposition is_model_side entries) [
    | some last_model ↦ read_continuing entries last_model
    | none ↦ record {
      new_from = 0;
      last_identity = none;
      previous_identity = none;
      trailing = [];
      result_ids = result_ids entries;
      starts_turn = starts_turn entries;
      label = label_of entries 0;
    }
  ]

  -- `ResponseFacts::read`
  unfoldable pub read_response : List Entry → ResponseFacts
  unfolding all_identities skeleton
  read_response entries = record {
    emitted_ids = all_identities entries;
    output_skeleton = skeleton entries;
  }
