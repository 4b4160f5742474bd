-- ===== src/Streams/Answers/Runs.antt =====
-- The runs that `SessionStructure::segment_run` of streams.rs gives.
use mathlib.Core.Option.{some-injective}
use abyss_backend.Common.{
  ℕ, suc, ◌<◌, String, true, List, [], ◌∷◌, map, some, ◌≡◌, refl, sym, ap, ◌∙◌, inl, inr, ◌==◌,
  nat_eq, string_eq, ==-cases, Option-cases, arith, length, get_elem?, get_or, drop, first,
  lt-of_get_elem?, lookup, insert, lookup-insert_self, lookup-insert_ne, contains, position,
  for_each_rule, map_option, map_or, and_then,
}
use abyss_backend.Streams.Exchanges.{Exchange}
use abyss_backend.Streams.Segmentation.{Segment}
use abyss_backend.Streams.Segmentation.Laws.{cut-located}
use abyss_backend.Streams.Structure.{SessionStructure, index_ids, derive_from, id_at, members_of}
use abyss_backend.Streams.Answers.{
  SegmentExchange, SegmentRun, describe_exchange, run_at, run_from, segment_run,
}
use abyss_backend.Streams.Answers.Events.{id_at-take_pks}

-- What the table of ids says after `count` exchanges.
record IdsKnown (exchanges : List Exchange) (count : ℕ) (known : List (String × ℕ)) : Type 0 where
  pub found :
      (id : String) (i : ℕ)
      → lookup id known ≡ some i
      → (i < length exchanges) × (e : Exchange) × (get_elem? exchanges i ≡ some e) × (e.id ≡ id)
  pub indexed :
      (i : ℕ) (e : Exchange)
      → i < count
      → get_elem? exchanges i ≡ some e
      → (j : ℕ) × (lookup e.id known ≡ some j)

abbrev record_id : ℕ → Exchange → List (String × ℕ) → List (String × ℕ)
record_id index exchange known =
    map_or (insert exchange.id index known) (λ _. known) (lookup exchange.id known)

IdsKnown-step :
    (exchanges : List Exchange) (i : ℕ) (x : Exchange) (known : List (String × ℕ))
    → get_elem? exchanges i ≡ some x
    → IdsKnown exchanges i known
    → IdsKnown exchanges (suc i) (record_id i x known)
IdsKnown-step exchanges i x known at v = elim (Option-cases (lookup x.id known)) [
  | inr (k, there) ↦ rw there (record {
    found = v.found;
    indexed = λ j e lt here. elim (==-cases j i) [
      | inl (_, same) ↦
          let one : x ≡ e =
            some-injective x e (sym at ∙ ap (get_elem? exchanges) (sym same) ∙ here) in
          (k, ap (λ (y : Exchange). lookup y.id known) (sym one) ∙ there)
      | inr (_, other) ↦ v.indexed j e (omega (arith, lt, other)) here
    ];
  })
  | inl new ↦ rw new (record {
    found = λ id j h. elim (==-cases x.id id) [
      | inl (_, same) ↦
          let here : i ≡ j = some-injective i j (
            sym (lookup-insert_self x.id i known)
            ∙ ap (λ k. lookup k (insert x.id i known)) same
            ∙ h) in
          (
            omega (arith, here, lt-of_get_elem? exchanges i at),
            x,
            ap (get_elem? exchanges) (sym here) ∙ at,
            same,
          )
      | inr (_, other) ↦ v.found id j (sym (lookup-insert_ne x.id id i known other) ∙ h)
    ];
    indexed = λ j e lt here. elim (==-cases x.id e.id) [
      | inl (_, same) ↦
          (i, ap (λ k. lookup k (insert x.id i known)) (sym same) ∙ lookup-insert_self x.id i known)
      | inr (_, other) ↦ elim (==-cases j i) [
        | inl (_, same) ↦
            let one : x ≡ e =
              some-injective x e (sym at ∙ ap (get_elem? exchanges) (sym same) ∙ here) in
            absurd (other (ap (λ (y : Exchange). y.id) one))
        | inr (_, before) ↦
            let (k, there) = v.indexed j e (omega (arith, lt, before)) here in
            (k, lookup-insert_ne x.id e.id i known other ∙ there)
      ]
    ];
  })
]

index_ids-IdsKnown :
    (exchanges : List Exchange) → IdsKnown exchanges (length exchanges) (index_ids exchanges)
unfolding index_ids
index_ids-IdsKnown exchanges =
    for_each_rule (IdsKnown exchanges) record_id exchanges
      (λ i x known at v. IdsKnown-step exchanges i x known at v) []
      (record {
        found = λ id i h. absurd (cc);
        indexed = λ i e lt here. absurd (omega (arith, lt));
      })

position-of_contains :
    (members : List ℕ) (index : ℕ)
    → contains members index ≡ true
    → (at : ℕ) × (position (λ member. member == index) members ≡ some at)
      × (first (drop at members) ≡ some index)
position-of_contains [] index h = absurd (cc)
position-of_contains (m ∷ members) index h = elim (==-cases m index) [
  | inl (p, same) ↦ rw p (0, refl, ap some same)
  | inr (p, other) ↦
      let (at, is, there) = position-of_contains members index (ground (arith, h, p)) in
      rw p (suc at, ap (map_option suc) is, there)
]

first-map {ℓ κ} :
    {A : Type ℓ} {B : Type κ} (f : A → B) (xs : List A) (a : A)
    → first xs ≡ some a
    → first (map f xs) ≡ some (f a)
first-map f [] a h = absurd (cc)
first-map f (x ∷ xs) a h = ap (λ y. some (f y)) (some-injective x a h)

-- The run from an exchange that its segment holds.
run_from_lem :
    (structure : SessionStructure) (j at : ℕ) (segment : Segment)
    → get_elem? structure.segmentation.segments (get_or structure.segmentation.segment_of j 0)
      ≡ some segment
    → position (λ member. member == j) segment.exchanges ≡ some at
    → first (drop at segment.exchanges) ≡ some j
    → (run_from structure j
        ≡ some (run_at structure (get_or structure.segmentation.segment_of j 0) at))
      × (first (
            map
              (λ (x : SegmentExchange). x.id)
              (run_at structure (get_or structure.segmentation.segment_of j 0) at).exchanges)
          ≡ some (id_at structure.exchanges j))
unfolding run_from run_at describe_exchange
run_from_lem structure j at segment here is begins =
    let members : members_of structure.segmentation (get_or structure.segmentation.segment_of j 0)
        ≡ segment.exchanges =
      ap (map_or [] (λ (s : Segment). s.exchanges)) here in
    (
      ap (map_option (run_at structure (get_or structure.segmentation.segment_of j 0)))
          (ap (position (λ member. member == j)) members ∙ is),
      first-map (λ (x : SegmentExchange). x.id) _ (describe_exchange structure j)
          (first-map (describe_exchange structure) _ j
            (ap (λ xs. first (drop at xs)) members ∙ begins)),
    )

-- For the id of every exchange of a session, `segment_run` answers, with a run that begins at an
-- exchange of that id.
pub segment_run-derive_from :
    (exchanges : List Exchange) (i : ℕ) (e : Exchange)
    → get_elem? exchanges i ≡ some e
    → (run : SegmentRun) × (segment_run (derive_from exchanges) e.id ≡ some run)
      × (first (map (λ (x : SegmentExchange). x.id) run.exchanges) ≡ some e.id)
unfolding segment_run derive_from
segment_run-derive_from exchanges i e here =
    let v = index_ids-IdsKnown exchanges in
    let (j, known) = v.indexed i e (lt-of_get_elem? exchanges i here) here in
    let (lt, e', there, same) = v.found e.id j known in
    let structure = derive_from exchanges in
    let (segment, at_segment, member) =
      cut-located exchanges structure.bases structure.turns j lt in
    let (at, is, begins) = position-of_contains segment.exchanges j member in
    let (answer, head) = run_from_lem structure j at segment at_segment is begins in
    (
      run_at structure (get_or structure.segmentation.segment_of j 0) at,
      ap (λ o. and_then o (run_from structure)) known ∙ answer,
      head ∙ ap some (id_at-take_pks exchanges j e' there ∙ same),
    )
