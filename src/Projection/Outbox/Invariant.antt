-- ===== src/Projection/Outbox/Invariant.antt =====
-- What holds of the outbox after any steps (storage/postgres/search/outbox.rs).
use abyss_backend.Common.{
  ℕ, ◌≤◌, false, List, [], ◌∷◌, ◌≡◌, refl, subst, inl, inr, arith, nat_eq, ==-cases, All, contains,
  Distinct,
}
use abyss_backend.Projection.Outbox.{max_outbox_attempts, ids}
use abyss_backend.Projection.Outbox.Rows.{IsConsistent}
use abyss_backend.Projection.Outbox.Steps.{
  World, Step, tick, enqueue, claim_step, record_step, Reach, here, next, empty_world,
}
use abyss_backend.Projection.Outbox.Sound.{count, Inv, empty_world-Inv}
use abyss_backend.Projection.Outbox.Claiming.{claim-Inv}
use abyss_backend.Projection.Outbox.Queueing.{enqueue-Inv}
use abyss_backend.Projection.Outbox.Settling.{record-Inv}

Step-Inv : {latest : ℕ} {v w : World} → Step latest v w → Inv v → Inv w
Step-Inv (tick v later h) i = record {
  consistent = i.consistent;
  fresh = i.fresh;
  distinct = i.distinct;
  budget = i.budget;
}
Step-Inv (enqueue v event_pk) i = enqueue-Inv v event_pk i
Step-Inv (claim_step v worker locked batch_size) i = claim-Inv v worker locked batch_size i
Step-Inv {latest} (record_step v worker task held there done) i =
    record-Inv latest v worker task held there done i

pub Reach-Inv : {latest : ℕ} {v w : World} → Inv v → Reach latest v w → Inv w
Reach-Inv i here = i
Reach-Inv i (next r step) = Step-Inv step (Reach-Inv i r)

-- After any steps from the empty outbox, where each worker records only results whose claims it
-- still holds, every row is consistent: it ended at most once, an ended row is unclaimed, it is
-- dead-lettered exactly when it has failed ten times, and its error is bounded: a row that is not
-- completed has one exactly if it has failed, also as a dead letter, and a completed row has none.
pub Reach-IsConsistent :
    (latest now : ℕ) (w : World) → Reach latest (empty_world now) w → All IsConsistent w.rows
Reach-IsConsistent latest now w r = (Reach-Inv (empty_world-Inv now) r).consistent

count-le-one : (i : ℕ) (xs : List ℕ) → Distinct xs → count i xs ≤ 1
count-le-one i [] d = omega arith
count-le-one i (x ∷ xs) d = elim (==-cases x i) [
  | inl (p, q) ↦ rw p (omega (arith, absent xs (subst (λ k. contains xs k ≡ false) q d.0)))
  | inr (p, q) ↦ rw p (omega (arith, count-le-one i xs d.1))
]
  where
    absent : (ys : List ℕ) → contains ys i ≡ false → count i ys ≡ 0
    absent [] h = refl
    absent (y ∷ ys) h = ground (arith, absent ys)

-- In any run from the empty outbox, where each worker records only results whose claims it still
-- holds, at most ten results are recorded for a row.
pub Reach-retries :
    (latest now : ℕ) (w : World)
    → Reach latest (empty_world now) w
    → (id : ℕ) → count id w.recorded ≤ max_outbox_attempts
Reach-retries latest now w r id =
    let v = Reach-Inv (empty_world-Inv now) r in
    omega (arith, v.budget id, count-le-one id (ids w.rows) v.distinct)
