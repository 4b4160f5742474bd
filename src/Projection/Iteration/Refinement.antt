-- ===== src/Projection/Iteration/Refinement.antt =====
-- The indexer takes only steps of the outbox (storage/postgres/search/worker.rs).
use abyss_backend.Common.{ℕ, ◌≤◌, List, [], ◌∷◌, ◌≡◌, arith, nat_eq, string_eq}
use abyss_backend.Projection.Outbox.Steps.{World, Reach, here}
use abyss_backend.Projection.Outbox.Sound.{Inv}
use abyss_backend.Projection.Outbox.Invariant.{Reach-Inv}
use abyss_backend.Projection.Iteration.{Round, Indexer, Settings, process_iteration, run}
use abyss_backend.Projection.Iteration.Recording.{Reach-trans}
use abyss_backend.Projection.Iteration.Rounds.{process_iteration-Reaches}

-- The rounds are in the order of time, from a time on.
abbrev pub AreOrdered : ℕ → List Round → Type 0
AreOrdered now [] = Unit {0}
AreOrdered now (round ∷ rounds) =
    (now ≤ round.backfilled_at)
    × (round.backfilled_at ≤ round.claimed_at)
    × (round.claimed_at ≤ round.recorded_at)
    × AreOrdered round.recorded_at rounds

AreOrdered-le :
    (now later : ℕ) (rounds : List Round)
    → now ≤ later
    → AreOrdered later rounds
    → AreOrdered now rounds
AreOrdered-le now later [] h o = tt
AreOrdered-le now later (round ∷ rounds) h o = (omega (arith, o.0), o.1, o.2, o.3)

-- A worker that runs alone takes only steps of the outbox, in each of which it holds the claim of
-- the result that it records: from a world that satisfies the invariant and has the worker's
-- outbox, any rounds in the order of time lead to a reachable world with the outbox after them. This
-- holds whichever statements of the database fail, where what was written before them stays,
-- whatever Elasticsearch answers and whatever is locked.
pub run-Reach :
    (settings : Settings) (rounds : List Round) (state : Indexer) (w : World)
    → Inv w
    → AreOrdered w.now rounds
    → w.next_id ≡ state.next_id
    → w.rows ≡ state.table
    → (w' : World) × Reach settings.latest w w'
      × (w'.next_id ≡ (run settings rounds state).next_id)
      × (w'.rows ≡ (run settings rounds state).table)
unfolding run
run-Reach settings [] state w v o i t = (w, here, i, t)
run-Reach settings (round ∷ rounds) state w v o i t =
    let (u, r, n, i', t') = process_iteration-Reaches settings round (o.1, o.2) state w v o.0 i t in
    let (w', r', i'', t'') =
      run-Reach settings rounds (process_iteration settings round state).0 u (Reach-Inv v r)
        (AreOrdered-le u.now round.recorded_at rounds n o.3) i' t' in
    (w', Reach-trans r r', i'', t'')
