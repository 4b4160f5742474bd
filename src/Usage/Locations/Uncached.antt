-- ===== src/Usage/Locations/Uncached.antt =====
-- That a lookup answers from what was loaded changes no answer (storage/event_locations.rs,
-- usage/mod.rs).
use abyss_backend.Common.{
  ℕ, ◌+◌, List, [], ◌∷◌, some, ◌≡◌, refl, sym, ap, ◌∙◌, inl, inr, arith, nat_eq, ==-cases,
  Option-cases, lookup, insert, lookup-insert_self, lookup-insert_ne, Result, ok, Result-cases,
  ◌>>=◌, >>=-assoc, >>=-cong, traverse,
}
use mathlib.Core.Option.{some-injective}
use abyss_backend.Errors.{AppError}
use abyss_backend.Streams.Structure.{SessionStructure}
use abyss_backend.Usage.Events.{UsageEventResponse}
use abyss_backend.Usage.Locations.{
  Structures, located, distinct_turns, structure_of, locate_from, locate_events, group_turns,
  summary_from, summary_turns,
}

abbrev pub sum : List ℕ → ℕ
sum [] = 0
sum (n ∷ ns) = n + sum ns

module _ (load : ℕ → Result AppError SessionStructure) where
  -- What is kept of a session is what loading it gives.
  abbrev IsLoaded : Structures → Type 0
  IsLoaded structures =
      (pk : ℕ) (structure : SessionStructure)
      → lookup pk structures ≡ some structure
      → load pk ≡ ok structure

  IsLoaded-insert :
      (structures : Structures) (pk : ℕ) (structure : SessionStructure)
      → IsLoaded structures
      → load pk ≡ ok structure
      → IsLoaded (insert pk structure structures)
  IsLoaded-insert structures pk structure v e j s h = elim (==-cases pk j) [
    | inl (_, q) ↦
        ap load (sym q)
        ∙ e
        ∙ ap ok (
            some-injective structure s (
              sym (lookup-insert_self pk structure structures)
              ∙ ap (λ i. lookup i (insert pk structure structures)) q
              ∙ h))
    | inr (_, n) ↦ v j s (sym (lookup-insert_ne pk j structure structures n) ∙ h)
  ]

  -- The entry of a session: its structure, with one that knows it.
  structure_of-load {ℓ} :
      {A : Type ℓ} (pk : ℕ) (structures : Structures)
      (f : SessionStructure × Structures → Result AppError A)
      → (g : SessionStructure → Result AppError A) → IsLoaded structures
      → ((structure : SessionStructure) (known : Structures)
          → IsLoaded known
          → f (structure, known) ≡ g structure)
      → (structure_of load pk structures >>= f) ≡ (load pk >>= g)
  unfolding structure_of
  structure_of-load pk structures f g v same = elim (Option-cases (lookup pk structures)) [
    | inl e ↦ elim (Result-cases (load pk)) [
      | inl (s, q) ↦
          rw (e, ◌>>=◌, structure_of)
            (rw q (same s (insert pk s structures) (IsLoaded-insert structures pk s v q)))
      | inr (error, q) ↦ rw (e, ◌>>=◌, structure_of) (rw q refl)
    ]
    | inr (s, e) ↦ rw (e, ◌>>=◌, structure_of) (rw (v pk s e) (same s structures v))
  ]

  abbrev pub locate_alone : UsageEventResponse → Result AppError UsageEventResponse
  locate_alone event = load event.session_pk >>= λ structure. ok (located structure event)

  locate_from-alone :
      (structures : Structures) (events : List UsageEventResponse)
      → IsLoaded structures
      → locate_from load structures events ≡ traverse locate_alone events
  unfolding locate_from
  locate_from-alone structures [] v = refl
  locate_from-alone structures (event ∷ events) v =
      structure_of-load event.session_pk structures
        (λ found. locate_from load found.1 events >>= λ rest. ok (located found.0 event ∷ rest))
        (λ structure. traverse locate_alone events >>= λ rest. ok (located structure event ∷ rest))
        v
        (λ structure known w.
          ap (λ r. r >>= λ rest. ok (located structure event ∷ rest))
            (locate_from-alone known events w))
      ∙ sym (
          >>=-assoc (load event.session_pk) (λ structure. ok (located structure event))
            (λ y. traverse locate_alone events >>= λ rest. ok (y ∷ rest)))

  -- A page of events is located as each event alone is: by the structure that loading its session
  -- gives. The first session that cannot be loaded fails the page.
  pub locate_events-alone :
      (events : List UsageEventResponse) → locate_events load events ≡ traverse locate_alone events
  unfolding locate_events
  locate_events-alone events = locate_from-alone [] events (λ pk s h. absurd (cc))

  abbrev pub turns_alone : ℕ × List ℕ → Result AppError ℕ
  turns_alone (session_pk, events) =
      load session_pk >>= λ structure. ok (distinct_turns structure events)

  abbrev pub group_alone : List (ℕ × List ℕ) → Result AppError ℕ
  group_alone sessions = traverse turns_alone sessions >>= λ ns. ok (sum ns)

  group_turns-alone {ℓ} :
      {A : Type ℓ} (structures : Structures) (turns : ℕ) (sessions : List (ℕ × List ℕ))
      → (f : ℕ × Structures → Result AppError A) (g : ℕ → Result AppError A) → IsLoaded structures
      → ((n : ℕ) (known : Structures) → IsLoaded known → f (n, known) ≡ g n)
      → (group_turns load structures turns sessions >>= f)
        ≡ (traverse turns_alone sessions >>= λ ns. g (turns + sum ns))
  unfolding group_turns
  group_turns-alone structures turns [] f g v same = same turns structures v ∙ ap g (omega arith)
  group_turns-alone structures turns ((session_pk, events) ∷ sessions) f g v same =
      >>=-assoc (structure_of load session_pk structures)
        (λ found. group_turns load found.1 (turns + distinct_turns found.0 events) sessions) f
      ∙ structure_of-load session_pk structures
          (λ found. group_turns load found.1 (turns + distinct_turns found.0 events) sessions >>= f)
          (λ structure. traverse turns_alone sessions >>= λ ns.
            g (turns + distinct_turns structure events + sum ns))
          v
          (λ structure known w.
            group_turns-alone known (turns + distinct_turns structure events) sessions f g w same)
      ∙ collected
    where
      collected :
          (load session_pk >>= λ structure. traverse turns_alone sessions >>= λ ns.
          g (turns + distinct_turns structure events + sum ns))
          ≡ (traverse turns_alone ((session_pk, events) ∷ sessions) >>= λ ns. g (turns + sum ns))
      collected = elim (Result-cases (load session_pk)) [
        | inl (s, e) ↦ elim (Result-cases (traverse turns_alone sessions)) [
          | inl (ns, q) ↦ rw e (rw q (ap g (omega arith)))
          | inr (error, q) ↦ rw e (rw q refl)
        ]
        | inr (error, e) ↦ rw e refl
      ]

module _ {ℓ} {Column : Type ℓ} (load : ℕ → Result AppError SessionStructure)
    (decode : Column → Result AppError (List (ℕ × List ℕ))) where
  abbrev pub column_alone : Column → Result AppError ℕ
  column_alone column = decode column >>= λ sessions. group_alone load sessions

  summary_from-alone :
      (structures : Structures) (columns : List Column)
      → IsLoaded load structures
      → summary_from load decode structures columns ≡ traverse column_alone columns
  unfolding summary_from
  summary_from-alone structures [] v = refl
  summary_from-alone structures (column ∷ columns) v =
      >>=-cong (decode column) _
        (λ sessions. group_alone load sessions >>= λ n.
          traverse column_alone columns >>= λ rest. ok (n ∷ rest))
        (λ sessions.
          group_turns-alone load structures 0 sessions
            (λ counted.
              summary_from load decode counted.1 columns >>= λ rest. ok (counted.0 ∷ rest))
            (λ n. traverse column_alone columns >>= λ rest. ok (n ∷ rest)) v
            (λ n known w.
              ap (λ r. r >>= λ rest. ok (n ∷ rest)) (summary_from-alone known columns w))
          ∙ >>=-cong (traverse (turns_alone load) sessions) _
              (λ ns. traverse column_alone columns >>= λ rest. ok (sum ns ∷ rest))
              (λ ns.
                ap (λ n. traverse column_alone columns >>= λ rest. ok (n ∷ rest)) (omega arith))
          ∙ sym (
              >>=-assoc (traverse (turns_alone load) sessions) (λ ns. ok (sum ns))
                (λ n. traverse column_alone columns >>= λ rest. ok (n ∷ rest))))
      ∙ sym (
          >>=-assoc (decode column) (λ sessions. group_alone load sessions)
            (λ n. traverse column_alone columns >>= λ rest. ok (n ∷ rest)))

  -- The turns of a summary's groups are, group by group and whatever was loaded before, the sums
  -- over the group's sessions of how many turns its events of the session fall in. The first column
  -- that cannot be read, or session that cannot be loaded, fails the summary.
  pub summary_turns-alone :
      (columns : List Column) → summary_turns load decode columns ≡ traverse column_alone columns
  unfolding summary_turns
  summary_turns-alone columns = summary_from-alone [] columns (λ pk s h. absurd (cc))
