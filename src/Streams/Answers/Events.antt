-- ===== src/Streams/Answers/Events.antt =====
-- The positions that `SessionStructure::event_position` of streams.rs gives.
use mathlib.Core.Option.{some-injective}
use abyss_backend.Common.{
  ℕ, zero, suc, ◌<◌, Bool, true, false, List, [], ◌∷◌, map, Option, some, ◌≡◌, refl, sym, ap, ◌∙◌,
  inl, inr, nat_eq, ==-cases, Bool-cases, arith, if◌then◌else◌, length, get_elem?, lt-of_get_elem?,
  lookup, insert, lookup-insert_self, lookup-insert_ne, contains, contains-append, contains-Perm,
  for_each_rule, map_option,
}
use abyss_backend.Streams.Events.{StreamEvent}
use abyss_backend.Streams.Exchanges.{Exchange, group_exchanges}
use abyss_backend.Streams.Exchanges.Counting.{all_pks}
use abyss_backend.Streams.Exchanges.Pairing.{group_exchanges-perm}
use abyss_backend.Streams.Structure.{index_pks, index_events, take_pks, derive, derive_from, id_at}
use abyss_backend.Streams.Answers.{EventLocation, locate, event_position}

same_either : (b : Bool) (o : Option ℕ) → (if b then o else o) ≡ o
same_either true o = refl
same_either false o = refl

lookup-index_pks :
    (index : ℕ) (pks : List ℕ) (known : List (ℕ × ℕ)) (pk : ℕ)
    → lookup pk (index_pks index pks known)
      ≡ (if contains pks pk then some index else lookup pk known)
unfolding index_pks
lookup-index_pks index [] known pk = refl
lookup-index_pks index (q ∷ pks) known pk =
    lookup-index_pks index pks (insert q index known) pk ∙ (elim (==-cases q pk) [
      | inl (p, same) ↦ rw p (
          ap (λ o. if contains pks pk then some index else o)
            (ap (λ k. lookup k (insert q index known)) (sym same)
              ∙ lookup-insert_self q index known)
          ∙ same_either (contains pks pk) (some index))
      | inr (p, other) ↦ rw (p, lookup-insert_ne q pk index known other) refl
    ])

-- What the table of events says after `count` exchanges.
record Indexed (exchanges : List Exchange) (count : ℕ) (known : List (ℕ × ℕ)) : Type 0 where
  pub found :
      (pk i : ℕ)
      → lookup pk known ≡ some i
      → (e : Exchange) × (get_elem? exchanges i ≡ some e) × (contains e.event_pks pk ≡ true)
  pub indexed :
      (pk i : ℕ) (e : Exchange)
      → i < count
      → get_elem? exchanges i ≡ some e
      → contains e.event_pks pk ≡ true
      → (j : ℕ) × (lookup pk known ≡ some j)

last_index :
    (i : ℕ) (x : Exchange) (known : List (ℕ × ℕ)) (pk : ℕ)
    → contains x.event_pks pk ≡ true
    → lookup pk (index_pks i x.event_pks known) ≡ some i
last_index i x known pk p =
    lookup-index_pks i x.event_pks known pk ∙ ap (λ b. if b then some i else lookup pk known) p

earlier_index :
    (i : ℕ) (x : Exchange) (known : List (ℕ × ℕ)) (pk : ℕ)
    → contains x.event_pks pk ≡ false
    → lookup pk (index_pks i x.event_pks known) ≡ lookup pk known
earlier_index i x known pk q =
    lookup-index_pks i x.event_pks known pk ∙ ap (λ b. if b then some i else lookup pk known) q

Indexed-step :
    (exchanges : List Exchange) (i : ℕ) (x : Exchange) (known : List (ℕ × ℕ))
    → get_elem? exchanges i ≡ some x
    → Indexed exchanges i known
    → Indexed exchanges (suc i) (index_pks i x.event_pks known)
Indexed-step exchanges i x known at v = record {
  found = λ pk j h. elim (Bool-cases (contains x.event_pks pk)) [
    | inl p ↦
        let same : i ≡ j = some-injective i j (sym (last_index i x known pk p) ∙ h) in
        (x, ap (get_elem? exchanges) (sym same) ∙ at, p)
    | inr q ↦ v.found pk j (sym (earlier_index i x known pk q) ∙ h)
  ];
  indexed = λ pk j e lt there m. elim (Bool-cases (contains x.event_pks pk)) [
    | inl p ↦ (i, last_index i x known pk p)
    | inr q ↦ elim (==-cases j i) [
      | inl (_, same) ↦
          let one : x ≡ e =
            some-injective x e (sym at ∙ ap (get_elem? exchanges) (sym same) ∙ there) in
          absurd (cc (ap (λ (y : Exchange). contains y.event_pks pk) one, q, m))
      | inr (_, other) ↦
          let (k, known_at) = v.indexed pk j e (omega (arith, lt, other)) there m in
          (k, earlier_index i x known pk q ∙ known_at)
    ]
  ];
}

index_events-Indexed :
    (exchanges : List Exchange) → Indexed exchanges (length exchanges) (index_events exchanges)
unfolding index_events
index_events-Indexed exchanges =
    for_each_rule (Indexed exchanges)
      (λ index (exchange : Exchange) known. index_pks index exchange.event_pks known) exchanges
      (λ i x known at v. Indexed-step exchanges i x known at v) []
      (record {
        found = λ pk i h. absurd (cc);
        indexed = λ pk i e lt there m. absurd (omega (arith, lt));
      })

holder :
    (exchanges : List Exchange) (pk : ℕ)
    → contains (all_pks exchanges) pk ≡ true
    → (i : ℕ) × (e : Exchange) × (get_elem? exchanges i ≡ some e) × (contains e.event_pks pk ≡ true)
holder [] pk h = absurd (cc)
holder (x ∷ exchanges) pk h = elim (Bool-cases (contains x.event_pks pk)) [
  | inl p ↦ (0, x, refl, p)
  | inr q ↦
      let (i, e, at, m) =
        holder exchanges pk
          (ground (arith, contains-append x.event_pks (all_pks exchanges) pk, h, q)) in
      (suc i, e, at, m)
]

pub id_at-take_pks :
    (exchanges : List Exchange) (i : ℕ) (e : Exchange)
    → get_elem? exchanges i ≡ some e
    → id_at (map take_pks exchanges) i ≡ e.id
id_at-take_pks [] i e h = absurd (cc)
id_at-take_pks (x ∷ exchanges) zero e h = ap (λ (y : Exchange). y.id) (some-injective x e h)
id_at-take_pks (x ∷ exchanges) (suc i) e h = id_at-take_pks exchanges i e h

-- Every event of a session has a position in the session's structure, and the exchange named there
-- is one that holds the event.
pub event_position-derive :
    (events : List StreamEvent) (pk : ℕ)
    → contains (map (λ (event : StreamEvent). event.pk) events) pk ≡ true
    → (location : EventLocation) × (e : Exchange) × (i : ℕ) × (event_position (derive events) pk
        ≡ some location)
      × (get_elem? (group_exchanges events) i ≡ some e)
      × (contains e.event_pks pk ≡ true)
      × (location.exchange ≡ e.id)
unfolding event_position locate derive derive_from
event_position-derive events pk h =
    let exchanges = group_exchanges events in
    let (j, e, at, m) =
      holder exchanges pk
        (contains-Perm pk _ (all_pks exchanges) (group_exchanges-perm events) h) in
    let v = index_events-Indexed exchanges in
    let (i, known) = v.indexed pk j e (lt-of_get_elem? exchanges j at) at m in
    let (e', at', m') = v.found pk i known in
    (
      locate (derive events) i,
      e',
      i,
      ap (map_option (locate (derive events))) known,
      at',
      m',
      id_at-take_pks exchanges i e' at',
    )
