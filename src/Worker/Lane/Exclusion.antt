-- ===== src/Worker/Lane/Exclusion.antt =====
-- Until the lease of a claim is over, nobody else claims.
use situation_studio.Prelude.{
  ◌≡◌, ◌≤◌, ◌+◌, refl, inl, inr, true, not, ◌&&◌, Option, none, some, List, [], ◌∷◌, arith, Uuid,
  Millis, Bool-cases, ◌∙◌, sym,
}
use mathlib.Core.Path.{subst}
use situation_studio.Prelude.Rows.{find_first, count}
use situation_studio.Prelude.Members.{In, In-fails, In-count}
use situation_studio.Prelude.Results.{Result, ok}
use situation_studio.Store.{Db, ReviewJob, is_running}
use situation_studio.Worker.Failure.{Timing, WorkerError, lease_duration_ms}
use situation_studio.Worker.Lane.{claim_next_review, checkout_active}
use situation_studio.Worker.Lane.Claims.{claim_excluded}
use situation_studio.Worker.Lane.Claiming.{claim-LaneInv, Granted}
use situation_studio.Worker.Lane.Invariant.{LaneInv, has_lane}

-- The only focused job is the first one.
first_owner :
    (jobs : List ReviewJob) (k : ReviewJob)
    → In k jobs
    → k.lane_owner ≡ true
    → count has_lane jobs ≤ 1
    → find_first has_lane jobs ≡ some k
unfolding find_first count
first_owner [] k m l c = elim m [ ]
first_owner (x ∷ xs) k (inl e) l c = ground arith
first_owner (x ∷ xs) k (inr m) l c =
    let n = In-count has_lane xs k m l in
    elim (Bool-cases x.lane_owner) [
      | inl t ↦ absurd (ground (arith, n))
      | inr t ↦ let ih = first_owner xs k m l (ground arith) in ground (arith, ih)
    ]

Served-excluded :
    (timing : Timing) (token : Uuid) (lease : Millis) (id : Uuid) (db : Db) (next : Timing)
    (next_token : Uuid)
    → LaneInv db.checkouts db.jobs
    → Granted timing token lease id db
    → next.now ≤ timing.now + lease
    → claim_next_review next next_token db ≡ ok (none, db)
Served-excluded timing token lease id db next next_token inv (k, m, i, runs, claim, until, lane)
      soon =
    let live =
      In-fails (λ j. is_running j.state && not (checkout_active db.checkouts j)) db.jobs k m
        inv.live in
    claim_excluded next next_token db k (first_owner db.jobs k m lane inv.single)
      (ground (arith, live)) (rw runs refl) (rw until (ground (arith, soon)))

-- From a database with a sound lane, a claim that gave a review under a valid lease shuts out every later
-- claim until that lease is over, whoever makes it: it gives nothing and changes nothing.
pub claimed_alone :
    (timing : Timing) (token : Uuid) (lease : Millis) (db db' : Db) (id : Uuid) (next : Timing)
    (next_token : Uuid)
    → lease_duration_ms timing ≡ ok lease
    → LaneInv db.checkouts db.jobs
    → claim_next_review timing token db ≡ ok (some id, db')
    → next.now ≤ timing.now + lease
    → claim_next_review next next_token db' ≡ ok (none, db')
claimed_alone timing token lease db db' id next next_token valid inv e soon =
    let (id2, db2, e1, e2, inv2, granted) = claim-LaneInv timing token db lease valid inv in
    let same : ◌≡◌ {A = Result WorkerError (Option Uuid × Db)} (ok (id2, db2)) (ok (some id, db')) =
      sym e2 ∙ e in
    let i : id2 ≡ some id = cc in
    let d : db2 ≡ db' = cc in
    Served-excluded timing token lease id db' next next_token
      (subst (λ x. LaneInv x.checkouts x.jobs) d inv2)
      (subst (Granted timing token lease id) d (granted id i)) soon
