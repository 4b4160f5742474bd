-- ===== src/Streams/Turns/Tests.antt =====
-- `Turns::assign` of turns.rs on the sample session.
use abyss_backend.Common.{ℕ, String, false, List, none, some, ◌≡◌, refl, get_elem?, nat_eq}
use abyss_backend.Streams.Exchanges.{opens_turn, continues_context}
use abyss_backend.Streams.Sample.{
  sample_exchanges, sample_bases, sample_turns, calling, continuing, opening,
}
use abyss_backend.Streams.Turns.{
  declares_turns, opened, inherited, join_turn, assign_one, assign, number, i64_max,
}
use abyss_backend.Streams.Turns.Numbers.{Numbered, assign-Numbered}
use abyss_backend.Streams.Turns.Opening.{opens_at}
use abyss_backend.Streams.Turns.Openers.{assign-Opens}

assign_sample : assign sample_exchanges sample_bases ≡ sample_turns
unfolding assign assign_one opened inherited join_turn opens_turn continues_context
assign_sample = refl

number_first : number 0 ≡ 1
unfolding number
number_first = refl

number_stops : number i64_max ≡ i64_max
unfolding number
number_stops = refl

assign-Numbered_example : Numbered 4 (assign sample_exchanges sample_bases)
assign-Numbered_example = assign-Numbered sample_exchanges sample_bases

-- The first exchange opens a turn without a context, the last one with a context.
opens_at_first : opens_at (declares_turns sample_exchanges) sample_exchanges 0 calling ≡ some "a"
unfolding opens_turn continues_context
opens_at_first = refl

opens_at_last : opens_at (declares_turns sample_exchanges) sample_exchanges 3 opening ≡ some "d"
unfolding opens_turn continues_context
opens_at_last = refl

assign-Opens_example :
    (t : ℕ) × (get_elem? (assign sample_exchanges sample_bases).of 0 ≡ some (some t))
    × (get_elem? (assign sample_exchanges sample_bases).ids t ≡ some "a")
assign-Opens_example = assign-Opens sample_exchanges sample_bases 0 calling "a" refl opens_at_first

turn_of_last : get_elem? (assign sample_exchanges sample_bases).ids 1 ≡ some "d"
unfolding assign assign_one opened inherited join_turn opens_turn continues_context
turn_of_last = refl

opened-none : (ids : List String) → opened false continuing ids ≡ none
unfolding opened opens_turn continues_context
opened-none ids = refl
