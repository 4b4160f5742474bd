-- ===== src/Projection/Iteration/Prefixes.antt =====
-- The first results of a round, which are recorded before the database fails
-- (storage/postgres/search/outbox.rs).
use abyss_backend.Common.{
  ℕ, zero, suc, true, List, [], ◌∷◌, map, ◌≡◌, inl, inr, arith, nat_eq, Bool-cases, All, contains,
  Distinct, take,
}
use abyss_backend.Projection.Outbox.{OutboxTaskResult}
use abyss_backend.Projection.Outbox.Keys.{Key, key_id}
use abyss_backend.Projection.Worker.Outcomes.{result_key}

abbrev recorded_ids : List OutboxTaskResult → List ℕ
recorded_ids results = map key_id (map result_key results)

contains-take :
    (n : ℕ) (results : List OutboxTaskResult) (i : ℕ)
    → contains (recorded_ids (take n results)) i ≡ true
    → contains (recorded_ids results) i ≡ true
contains-take zero results i h = cc
contains-take (suc n) [] i h = h
contains-take (suc n) (result ∷ results) i h = ground (arith, contains-take n results i)

pub take-Distinct :
    (n : ℕ) (results : List OutboxTaskResult)
    → Distinct (recorded_ids results)
    → Distinct (recorded_ids (take n results))
take-Distinct zero results d = tt
take-Distinct (suc n) [] d = tt
take-Distinct (suc n) (result ∷ results) d = (
  elim (Bool-cases (contains (recorded_ids (take n results)) result.id)) [
    | inl e ↦ absurd (ground (arith, d.0, contains-take n results result.id e))
    | inr e ↦ e
  ],
  take-Distinct n results d.1,
)

pub take-All :
    (P : Key → Type 0) (n : ℕ) (results : List OutboxTaskResult)
    → All P (map result_key results)
    → All P (map result_key (take n results))
take-All P zero results h = tt
take-All P (suc n) [] h = tt
take-All P (suc n) (result ∷ results) h = (h.0, take-All P n results h.1)
