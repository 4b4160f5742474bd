-- ===== src/Streams/Sample.antt =====
-- A small session, on which the streams code and its theorems are run.
use abyss_backend.Common.{ℕ, String, Bool, true, false, List, [], ◌∷◌, Option, none, some, ok, err}
use abyss_backend.Streams.Events.{RequestFacts, ResponseFacts}
use abyss_backend.Streams.Exchanges.{Side, Exchange}
use abyss_backend.Streams.Bases.{Base, last_output, no_output}
use abyss_backend.Streams.Turns.{Turns}

abbrev asked : ℕ → Option String → Bool → Side RequestFacts
asked pk last_identity opens = record {
  pk = pk;
  previous_response_id = none;
  facts = record {
    new_from = pk;
    last_identity = last_identity;
    previous_identity = none;
    trailing = [];
    result_ids = [];
    starts_turn = opens;
    label = none;
  };
}

abbrev answered : ℕ → String → String → Side ResponseFacts
answered pk role id = record {
  pk = pk;
  previous_response_id = none;
  facts = record { emitted_ids = id ∷ []; output_skeleton = (role, some id) ∷ [] };
}

abbrev pub exchange_at :
    ℕ → String → Option (Side RequestFacts) → Option (Side ResponseFacts) → Exchange
exchange_at time id asks answers = record {
  id = id;
  response_id = some id;
  event_pks = [];
  at_time = time;
  end = time;
  request = asks;
  response = answers;
  subagent_id = none;
  parent_subagent_id = none;
  turn_id = none;
}

-- An exchange with a call, its continuation, an aside that nothing continues, and a new turn.
abbrev pub calling : Exchange
calling = exchange_at 10 "a" (some (asked 0 none true)) (some (answered 1 "tool_call" "call-1"))

abbrev pub continuing : Exchange
continuing =
    exchange_at 20 "b" (some (asked 2 (some "call-1") false))
      (some (answered 3 "assistant" "item:b"))

abbrev pub aside : Exchange
aside = exchange_at 30 "c" (some (asked 4 (some "call-1") false)) none

abbrev pub opening : Exchange
opening = exchange_at 40 "d" (some (asked 5 (some "item:b") true)) none

abbrev pub sample_exchanges : List Exchange
sample_exchanges = calling ∷ continuing ∷ aside ∷ opening ∷ []

abbrev pub sample_bases : List Base
sample_bases = err no_output ∷ ok (0, last_output) ∷ ok (0, last_output) ∷ ok (1, last_output) ∷ []

abbrev pub sample_turns : Turns
sample_turns = record { of = some 0 ∷ some 0 ∷ some 0 ∷ some 1 ∷ []; ids = "a" ∷ "d" ∷ [] }
