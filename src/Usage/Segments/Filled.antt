-- ===== src/Usage/Segments/Filled.antt =====
-- The events that a segment's exchanges show (usage/segments.rs).
use abyss_backend.Common.{
  ℕ, true, List, [], ◌∷◌, map, Option, none, some, ◌≡◌, refl, ap, ◌∙◌, inl, inr, arith, nat_eq,
  ==_refl, ==-cases, lookup, lookup-without, and_then, contains, Distinct,
}
use abyss_backend.Streams.Answers.{SegmentExchange, SegmentRun}
use abyss_backend.Usage.Preview.{Window}
use abyss_backend.Usage.Segments.{
  SegmentExchangeResponse, Events, push_pk, exchange_pks, run_event_pks, take_event,
  exchange_response, fill, segment_response,
}

-- The exchange with the events that the map has of its keys.
abbrev pub filled : Window → Events → SegmentExchange → SegmentExchangeResponse
filled window events exchange =
    exchange_response window exchange (and_then exchange.request_pk (λ pk. lookup pk events))
      (and_then exchange.response_pk (λ pk. lookup pk events))

-- Of some keys, what is left has what the whole map has.
abbrev Agree : Events → Events → List ℕ → Type 0
Agree left events pks = (pk : ℕ) → contains pks pk ≡ true → lookup pk left ≡ lookup pk events

take_event-Agree :
    (key : Option ℕ) (pks : List ℕ) (left events : Events)
    → Agree left events (push_pk key pks)
    → Distinct (push_pk key pks)
    → ((take_event key left).0 ≡ and_then key (λ pk. lookup pk events))
      × Agree (take_event key left).1 events pks
      × Distinct pks
unfolding take_event
take_event-Agree none pks left events a d = (refl, a, d)
take_event-Agree (some key) pks left events a d = (
  a key (ground (arith, ==_refl key)),
  (λ pk h. elim (==-cases key pk) [
    | inl (_, q) ↦ absurd (ground (arith, d.0, h, ap (contains pks) q))
    | inr (p, _) ↦ lookup-without key pk left ∙ rw p (a pk (ground (arith, h)))
  ]),
  d.1,
)

fill-filled :
    (window : Window) (exchanges : List SegmentExchange) (left events : Events)
    → Agree left events (exchange_pks exchanges)
    → Distinct (exchange_pks exchanges)
    → fill window exchanges left ≡ map (filled window events) exchanges
unfolding fill
fill-filled window [] left events a d = refl
fill-filled window (exchange ∷ exchanges) left events a d =
    let (request, a', d') =
      take_event-Agree exchange.request_pk (push_pk exchange.response_pk (exchange_pks exchanges))
        left events a d in
    let (response, a'', d'') =
      take_event-Agree exchange.response_pk (exchange_pks exchanges)
        (take_event exchange.request_pk left).1 events a' d' in
    rw request (
      rw response (
        ap (λ rest. filled window events exchange ∷ rest)
          (fill-filled window exchanges _ events a'' d'')))

-- Where no two exchanges of a run name the same event, each is shown with its own request and
-- response of those that were loaded, although each loaded event is given out once.
pub segment_response-filled :
    (session_pk : ℕ) (run : SegmentRun) (events : Events) (window : Window)
    → Distinct (run_event_pks run)
    → (segment_response session_pk run events window).exchanges
      ≡ map (filled window events) run.exchanges
unfolding segment_response run_event_pks
segment_response-filled session_pk run events window d =
    fill-filled window run.exchanges events events (λ pk h. refl) d
