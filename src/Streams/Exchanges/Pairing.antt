-- ===== src/Streams/Exchanges/Pairing.antt =====
-- How `group_exchanges` of base.rs pairs events.
use mathlib.Core.List.{Perm, perm_middle, perm_append_comm, append-nil}
use mathlib.Core.List.Perm
use mathlib.Core.Option.{some-injective}
use abyss_backend.Common.{
  ℕ, ◌+◌, ◌<◌, ◌≤◌, String, List, [], ◌∷◌, ◌++◌, Option, none, some, ◌≡◌, refl, sym, ap, subst, ◌∙◌,
  inl, inr, ◌==◌, string_eq, option_eq, ==-cases, Option-cases, arith, if◌then◌else◌, length,
  length-append, map, get_elem?, get_elem?-of_lt, update, length-update, update-append_end, is_some,
  lookup, insert, lookup-insert_self, lookup-insert_ne, Sorted, sort_by-Sorted, and_then,
}
use abyss_backend.Streams.Events.{StreamEvent}
use abyss_backend.Streams.Exchanges.{
  Exchange, Grouping, no_exchanges, add, new_exchange, push_exchange, group_event, group_events,
  earlier_exchange, group_exchanges,
}
use abyss_backend.Streams.Exchanges.Counting.{
  all_pks, count_response, event_pks-add, response_id-add, all_pks-set, count_response-set,
  all_pks-append, count_response-append, all_pks-sort_by, count_response-sort_by,
}

-- What the loop keeps: a known response names an exchange, and each response has at most one.
record GroupInv (g : Grouping) : Type 0 where
  pub known : (id : String) (i : ℕ) → lookup id g.by_response_id ≡ some i → i < length g.exchanges
  pub single :
      (id : String)
      → count_response id g.exchanges ≡ (if is_some (lookup id g.by_response_id) then 1 else 0)

-- One event more in the exchange at `i`.
add_at-pks :
    (event : StreamEvent) (g : Grouping) (i : ℕ)
    → i < length g.exchanges
    → Perm (event.pk ∷ all_pks g.exchanges) (all_pks (update (add event) i g.exchanges))
add_at-pks event g i lt =
    let (x, e) = get_elem?-of_lt g.exchanges i lt in
    rw (e, update) (all_pks-set event g.exchanges i x e)

count_response-update :
    (id : String) (event : StreamEvent) (xs : List Exchange) (i : ℕ)
    → count_response id (update (add event) i xs) ≡ count_response id xs
count_response-update id event xs i = elim (Option-cases (get_elem? xs i)) [
  | inl e ↦ rw (e, update)
  | inr (x, e) ↦ rw (e, update) (count_response-set id event xs i x e)
]

-- A new exchange at the end, with its first event.
pushed : StreamEvent → List Exchange → List Exchange
pushed event xs = xs ++ add event (new_exchange event) ∷ []

pushed-pks :
    (event : StreamEvent) (xs : List Exchange)
    → Perm (event.pk ∷ all_pks xs) (all_pks (pushed event xs))
unfolding pushed new_exchange
pushed-pks event xs =
    rw
      (
        all_pks-append xs (add event (new_exchange event) ∷ []),
        event_pks-add event (new_exchange event),
      )
      (Perm.symm (perm_append_comm (all_pks xs) (event.pk ∷ [])))

count_response-pushed :
    (id : String) (event : StreamEvent) (xs : List Exchange)
    → count_response id (pushed event xs)
      ≡ count_response id xs + (if event.response_id == some id then 1 else 0)
unfolding pushed new_exchange
count_response-pushed id event xs = omega (
  arith,
  count_response-append id xs (add event (new_exchange event) ∷ []),
  ap (λ r. if r == some id then (let one : ℕ = 1 in one) else 0)
      (response_id-add event (new_exchange event)),
)

-- A round whose event names a known response.
group_event-known :
    (event : StreamEvent) (g : Grouping) (i : ℕ)
    → and_then event.response_id (λ id. lookup id g.by_response_id) ≡ some i
    → group_event event g ≡ record g { exchanges = update (add event) i g.exchanges }
unfolding group_event
group_event-known event g i e = rw (e, group_event)

add_response : Option String → ℕ → List (String × ℕ) → List (String × ℕ)
add_response none index known = known
add_response (some id) index known = insert id index known

-- A round that opens an exchange.
group_event-new :
    (event : StreamEvent) (g : Grouping)
    → and_then event.response_id (λ id. lookup id g.by_response_id) ≡ none
    → group_event event g ≡ record {
      exchanges = pushed event g.exchanges;
      by_response_id = add_response event.response_id (length g.exchanges) g.by_response_id;
    }
unfolding group_event push_exchange pushed add_response
group_event-new event g e =
    rw (e, group_event)
      (rw (length-append g.exchanges (new_exchange event ∷ []))
        (ground (arith, update-append_end (add event) g.exchanges (new_exchange event))))

known-GroupInv :
    (event : StreamEvent) (g : Grouping) (i : ℕ)
    → GroupInv g
    → GroupInv (record g { exchanges = update (add event) i g.exchanges })
known-GroupInv event g i v = record {
  known = λ id j e. omega (arith, v.known id j e, length-update (add event) i g.exchanges);
  single = λ id. count_response-update id event g.exchanges i ∙ v.single id;
}

new-known :
    (event : StreamEvent) (g : Grouping) (r : Option String)
    → GroupInv g
    → (id : String) (i : ℕ)
    → lookup id (add_response r (length g.exchanges) g.by_response_id) ≡ some i
    → i < length (pushed event g.exchanges)
unfolding add_response pushed
new-known event g none v id i e =
    omega (arith, v.known id i e, length-append g.exchanges (add event (new_exchange event) ∷ []))
new-known event g (some r) v id i e = elim (==-cases r id) [
  | inl (_, q) ↦
      let same : length g.exchanges ≡ i = some-injective (length g.exchanges) i (
        sym (lookup-insert_self r (length g.exchanges) g.by_response_id)
        ∙ ap (λ k. lookup k (insert r (length g.exchanges) g.by_response_id)) q
        ∙ e) in
      omega (arith, length-append g.exchanges (add event (new_exchange event) ∷ []))
  | inr (_, q) ↦
      let old =
        v.known id i (sym (lookup-insert_ne r id (length g.exchanges) g.by_response_id q) ∙ e) in
      omega (arith, length-append g.exchanges (add event (new_exchange event) ∷ []))
]

-- A response that is not known has no exchange yet, and one from now on.
new-single :
    (g : Grouping) (r : Option String)
    → GroupInv g
    → and_then r (λ id. lookup id g.by_response_id) ≡ none
    → (id : String)
    → count_response id g.exchanges + (if r == some id then 1 else 0) ≡ (
        if is_some (lookup id (add_response r (length g.exchanges) g.by_response_id)) then 1 else 0)
unfolding add_response
new-single g none v e id = omega (arith, v.single id)
new-single g (some r) v e id = elim (==-cases r id) [
  | inl (p, q) ↦ rw p (
      rw (← q) (
        rw (lookup-insert_self r (length g.exchanges) g.by_response_id)
          (ground (arith, v.single r))))
  | inr (p, q) ↦ rw p (
      rw (lookup-insert_ne r id (length g.exchanges) g.by_response_id q)
        (omega (arith, v.single id)))
]

new-GroupInv :
    (event : StreamEvent) (g : Grouping)
    → and_then event.response_id (λ id. lookup id g.by_response_id) ≡ none
    → GroupInv g
    → GroupInv (record {
      exchanges = pushed event g.exchanges;
      by_response_id = add_response event.response_id (length g.exchanges) g.by_response_id;
    })
new-GroupInv event g e v = record {
  known = new-known event g event.response_id v;
  single = λ id. count_response-pushed id event g.exchanges ∙ new-single g event.response_id v e id;
}

known-lt :
    (r : Option String) (g : Grouping) (i : ℕ)
    → GroupInv g
    → and_then r (λ id. lookup id g.by_response_id) ≡ some i
    → i < length g.exchanges
known-lt none g i v e = absurd (cc)
known-lt (some id) g i v e = v.known id i e

group_event-GroupInv :
    (event : StreamEvent) (g : Grouping) → GroupInv g → GroupInv (group_event event g)
group_event-GroupInv event g v =
    elim (Option-cases (and_then event.response_id (λ id. lookup id g.by_response_id))) [
      | inl e ↦ subst GroupInv (sym (group_event-new event g e)) (new-GroupInv event g e v)
      | inr (i, e) ↦
          subst GroupInv (sym (group_event-known event g i e)) (known-GroupInv event g i v)
    ]

group_event-pks :
    (event : StreamEvent) (g : Grouping)
    → GroupInv g
    → Perm (event.pk ∷ all_pks g.exchanges) (all_pks (group_event event g).exchanges)
group_event-pks event g v =
    elim (Option-cases (and_then event.response_id (λ id. lookup id g.by_response_id))) [
      | inl e ↦ rw (group_event-new event g e) (pushed-pks event g.exchanges)
      | inr (i, e) ↦
          rw (group_event-known event g i e)
            (add_at-pks event g i (known-lt event.response_id g i v e))
    ]

group_events-GroupInv :
    (events : List StreamEvent) (g : Grouping) → GroupInv g → GroupInv (group_events events g)
unfolding group_events
group_events-GroupInv [] g v = v
group_events-GroupInv (event ∷ events) g v =
    group_events-GroupInv events (group_event event g) (group_event-GroupInv event g v)

group_events-pks :
    (events : List StreamEvent) (g : Grouping)
    → GroupInv g
    → Perm
        (map (λ (event : StreamEvent). event.pk) events ++ all_pks g.exchanges)
        (all_pks (group_events events g).exchanges)
unfolding group_events
group_events-pks [] g v = Perm.rfl
group_events-pks (event ∷ events) g v =
    Perm.trans
      (Perm.symm (perm_middle (map (λ (e : StreamEvent). e.pk) events) (all_pks g.exchanges)))
      (Perm.trans
        (Perm.append_left (map (λ (e : StreamEvent). e.pk) events) (group_event-pks event g v))
        (group_events-pks events (group_event event g) (group_event-GroupInv event g v)))

no_exchanges-GroupInv : GroupInv no_exchanges
no_exchanges-GroupInv = record { known = λ id i e. absurd (cc); single = λ id. refl }

-- The events of a session are distributed over its exchanges: none is lost, and none is counted
-- twice.
pub group_exchanges-perm :
    (events : List StreamEvent)
    → Perm (map (λ (event : StreamEvent). event.pk) events) (all_pks (group_exchanges events))
unfolding group_exchanges
group_exchanges-perm events =
    Perm.trans (rw append-nil at (group_events-pks events no_exchanges no_exchanges-GroupInv))
      (all_pks-sort_by (group_events events no_exchanges).exchanges)

-- No two exchanges of a session have the same response.
pub count_response-group_exchanges :
    (events : List StreamEvent) (id : String) → count_response id (group_exchanges events) ≤ 1
unfolding group_exchanges
count_response-group_exchanges events id =
    let g = group_events events no_exchanges in
    let v = group_events-GroupInv events no_exchanges no_exchanges-GroupInv in
    rw (count_response-sort_by id g.exchanges) (ground (arith, v.single id))

-- The exchanges of a session stand in the order of their times.
pub group_exchanges-Sorted :
    (events : List StreamEvent) → Sorted earlier_exchange (group_exchanges events)
unfolding group_exchanges
group_exchanges-Sorted events =
    sort_by-Sorted earlier_exchange (λ a b h. ground arith) (λ a b c h k. ground arith)
      (group_events events no_exchanges).exchanges

-- The events of a session are distributed over its exchanges: none is lost, and none is counted
-- twice. No two exchanges have the same response, and they stand in the order of their times.
pub group_exchanges-Paired :
    (events : List StreamEvent)
    → Perm (map (λ (event : StreamEvent). event.pk) events) (all_pks (group_exchanges events))
      × ((id : String) → count_response id (group_exchanges events) ≤ 1)
      × Sorted earlier_exchange (group_exchanges events)
group_exchanges-Paired events = (
  group_exchanges-perm events,
  count_response-group_exchanges events,
  group_exchanges-Sorted events,
)
