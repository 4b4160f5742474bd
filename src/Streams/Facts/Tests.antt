-- ===== src/Streams/Facts/Tests.antt =====
-- facts.rs on a few conversations.
use mathlib.Core.List.{flat_map}
use abyss_backend.Common.{
  String, true, List, [], ◌∷◌, Option, none, some, ◌≡◌, refl, nat_eq, string_eq,
}
use abyss_backend.Streams.Events.{Entry, Label}
use abyss_backend.Streams.Facts.{
  is_model_side, is_blank, is_empty, len_utf16, utf16_length, label_text, has_user_text, label_of,
  is_result, starts_turn, item, text_identity, call, identities, key, skeleton, all_identities,
  identities_backwards, run_start, last_run, read_continuing, read_request, read_response,
}

abbrev digest : String → String
digest text = text

abbrev entry : String → String → Option String → Entry
entry role text call_id = record { role = role; text = text; call_id = call_id; item_id = none }

-- A call, its result, model text without an id, and a new prompt.
abbrev conversation : List Entry
conversation =
    entry "user" "hi" none
    ∷ entry "tool_call" "{}" (some "c1")
    ∷ entry "tool_result" "ok" (some "c1")
    ∷ entry "assistant" "done" none
    ∷ entry "reasoning" "" none
    ∷ entry "user" "next" none
    ∷ []

abbrev next_label : Label
next_label = record { index = 5; text = "next"; length = 4 }

read_conversation : read_request digest conversation ≡ record {
  new_from = 5;
  last_identity = some "text:assistant:done";
  previous_identity = some "c1";
  trailing = "reasoning" ∷ [];
  result_ids = [];
  starts_turn = true;
  label = some next_label;
}
unfolding read_request read_continuing is_model_side last_run run_start is_result identities item
    call text_identity is_blank identities_backwards starts_turn has_user_text is_empty label_of
    utf16_length len_utf16 label_text flat_map
read_conversation = refl

read_output :
    read_response digest (entry "assistant" "done" none ∷ entry "tool_call" "{}" (some "c2") ∷ [])
    ≡ record {
      emitted_ids = "text:assistant:done" ∷ "c2" ∷ [];
      output_skeleton = ("assistant", some "text:assistant:done") ∷ ("tool_call", some "c2") ∷ [];
    }
unfolding read_response all_identities skeleton key identities item call text_identity is_blank
    is_model_side flat_map
read_output = refl

label_of-conversation : label_of conversation 5 ≡ some next_label
unfolding label_of has_user_text is_empty utf16_length len_utf16 label_text
label_of-conversation = refl

starts_turn_conversation : starts_turn (entry "user" "next" none ∷ []) ≡ true
unfolding starts_turn has_user_text is_empty is_result
starts_turn_conversation = refl
