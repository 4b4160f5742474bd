-- ===== src/Streams/Bases/Tests.antt =====
-- base.rs on the sample session.
use abyss_backend.Common.{
  All, any, string_eq, String, Option, ok, true, false, List, [], ◌∷◌, map, none, some, ◌≡◌, ◌↔◌,
  refl, arith, err, nat_eq,
}
use abyss_backend.Streams.Events.{Entry, SkeletonEntry, RequestFacts}
use abyss_backend.Streams.Sample.{exchange_at, sample_exchanges, sample_bases}
use abyss_backend.Streams.Bases.{
  ById, multiple_responses, emitted_by, emitters, record_ids, record_emitter, scan_emitters,
  scan_ids, only_emitter, skip_past, said_in_order, said_after, continued, find_by_facts, find_base,
  first_bases, find_bases, tell_apart, base_at, output_of, last_output,
}
use abyss_backend.Streams.Exchanges.{Exchange, Side}
use abyss_backend.Streams.Facts.{
  is_model_side, is_blank, item, text_identity, call, identities, key, skeleton, read_request,
}
use abyss_backend.Streams.Bases.Resent.{Regular, Unnamed, find_base-resent}
use abyss_backend.Streams.Bases.Said.{SaidAfter, said_after-SaidAfter}
use abyss_backend.Streams.Bases.Explained.{Explained}
use abyss_backend.Streams.Bases.Apart.{find_bases-Explained}

abbrev sample_by_id : ById
sample_by_id = ("call-1", 0 ∷ []) ∷ ("item:b", 1 ∷ []) ∷ []

emitters_sample :
    map (emitted_by (emitters sample_exchanges)) ("call-1" ∷ "item:b" ∷ "no" ∷ [])
    ≡ (0 ∷ []) ∷ (1 ∷ []) ∷ [] ∷ []
unfolding emitters record_ids record_emitter
emitters_sample = refl

find_bases_sample : find_bases sample_exchanges [] sample_by_id ≡ sample_bases
unfolding find_bases first_bases find_base find_by_facts only_emitter scan_ids scan_emitters
    continued said_after said_in_order skip_past tell_apart
find_bases_sample = refl

-- A prompt sent twice: two responses emitted the identity.
only_emitter_twice : only_emitter ("x" ∷ []) 2 (("x", 0 ∷ 1 ∷ []) ∷ []) ≡ err multiple_responses
unfolding only_emitter scan_ids scan_emitters
only_emitter_twice = refl

abbrev output : List SkeletonEntry
output =
    ("assistant", some "item:b")
    ∷ ("tool_result", none)
    ∷ ("reasoning", none)
    ∷ ("tool_call", some "call-2")
    ∷ []

said_after-output : said_after output "item:b" ("reasoning" ∷ "tool_call" ∷ []) ≡ true
unfolding said_after said_in_order skip_past
said_after-output = refl

said_after_swapped : said_after output "item:b" ("tool_call" ∷ "reasoning" ∷ []) ≡ false
unfolding said_after said_in_order skip_past
said_after_swapped = refl

said_after-SaidAfter_example :
    (said_after output "item:b" ("reasoning" ∷ []) ≡ true)
    ↔ SaidAfter output "item:b" ("reasoning" ∷ [])
said_after-SaidAfter_example = said_after-SaidAfter output "item:b" ("reasoning" ∷ [])

find_bases-Explained_example :
    Explained sample_exchanges [] sample_by_id 2
      (base_at (find_bases sample_exchanges [] sample_by_id) 2)
find_bases-Explained_example = find_bases-Explained sample_exchanges [] sample_by_id 2 (omega arith)

abbrev entry : String → String → Option String → Entry
entry role text call_id = record { role = role; text = text; call_id = call_id; item_id = none }

abbrev spoken : Entry
spoken = entry "assistant" "plan" none

abbrev called : Entry
called = entry "tool_call" "{}" (some "call-1")

abbrev thought : Entry
thought = entry "reasoning" "" none

abbrev digest : String → String
digest text = text

-- An exchange that said a plan, a call and a thought without a name.
abbrev resent_request : Side RequestFacts
resent_request = record {
  pk = 2;
  previous_response_id = none;
  facts = read_request digest (
      entry "user" "hi" none
      ∷ spoken
      ∷ called
      ∷ thought
      ∷ entry "tool_result" "ok" (some "call-1")
      ∷ []);
}

abbrev emitting_exchanges : List Exchange
emitting_exchanges =
    exchange_at 10 "a" none (
      some (record {
        pk = 1;
        previous_response_id = none;
        facts = record {
          emitted_ids = "text:assistant:plan" ∷ "call-1" ∷ [];
          output_skeleton =
              ("assistant", some "text:assistant:plan")
              ∷ ("tool_call", some "call-1")
              ∷ ("reasoning", none)
              ∷ [];
        };
      }))
    ∷ exchange_at 20 "b" (some resent_request) none
    ∷ []

Regular-output : All Regular (spoken ∷ called ∷ thought ∷ [])
unfolding is_model_side
Regular-output = ((refl, refl), ((refl, refl), ((refl, refl), tt)))

silent_new : any is_model_side (entry "tool_result" "ok" (some "call-1") ∷ []) ≡ false
unfolding is_model_side
silent_new = refl

key-called : key digest called ≡ some "call-1"
unfolding key item text_identity
key-called = refl

Unnamed-thought : All (Unnamed digest) (thought ∷ [])
unfolding identities item call text_identity is_model_side is_blank
Unnamed-thought = (refl, tt)

only_emitter-call : only_emitter ("call-1" ∷ []) 1 sample_by_id ≡ ok 0
unfolding only_emitter scan_ids scan_emitters
only_emitter-call = refl

skeleton-output : output_of emitting_exchanges 0 ≡ skeleton digest (spoken ∷ called ∷ thought ∷ [])
unfolding skeleton key item text_identity is_blank is_model_side
skeleton-output = refl

find_base-resent_example : find_base 1 emitting_exchanges [] sample_by_id ≡ ok (0, last_output)
find_base-resent_example =
    find_base-resent digest (entry "user" "hi" none ∷ []) (spoken ∷ []) (thought ∷ [])
      (entry "tool_result" "ok" (some "call-1") ∷ []) called "call-1" emitting_exchanges []
      sample_by_id 1 0 resent_request Regular-output silent_new key-called Unnamed-thought
      only_emitter-call skeleton-output refl refl refl
