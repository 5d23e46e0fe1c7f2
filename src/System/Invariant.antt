-- ===== src/System/Invariant.antt =====
-- Whatever the programs do, in whatever order, the lane stays sound.
use situation_studio.Prelude.{
  ◌≡◌, ◌≤◌, false, Option, none, List, [], any, Millis, Uuid, ◌==◌, ◌∙◌, sym, arith, not, refl,
  ◌&&◌,
}
use situation_studio.Prelude.Rows.{count, count-zero}
use situation_studio.Prelude.Members.{count_split}
use mathlib.Core.Path.{subst}
use situation_studio.Prelude.Results.{Result, ok, Always}
use situation_studio.Store.{Checkout, Db, ReviewJob, is_running, is_active}
use situation_studio.Worker.Failure.{Matcher, Timing, lease_duration_ms}
use situation_studio.Worker.Lane.{claim_next_review, checkout_active}
use situation_studio.Worker.Lane.Invariant.{LaneInv}
use situation_studio.Worker.Lane.Claiming.{claim-LaneInv}
use situation_studio.Worker.Reporting.{
  Sound, SoundPair as SoundReport, renew-LaneInv, committed-LaneInv, readied-LaneInv,
  repair-LaneInv, settle_failure-LaneInv, application_failure-LaneInv, started-LaneInv,
  completed-LaneInv,
}
use situation_studio.Workflow.Keeping.{cancel_review-LaneInv}
use situation_studio.Workflow.Queueing.{queue_review-LaneInv, retry_review-LaneInv}
use situation_studio.Workflow.Releasing.{check_in-LaneInv, force_check_in-LaneInv}
use situation_studio.Workflow.Review.{queue_review, cancel_review}
use situation_studio.Workflow.Retry.{retry_review}
use situation_studio.Workflow.Checkin.{check_in_situation, force_check_in_situation}
use situation_studio.Workflow.Revision.{create_revision}
use situation_studio.Workflow.Checkout.{checkout_situation, start_over_from_production}
use situation_studio.Workflow.Opening.{
  checkout_situation-LaneInv, start_over-LaneInv, create_revision-LaneInv,
}
use situation_studio.System.{
  Step, Run, stay, then, claimed, renewed, started, committed, ended, readied, failed, broken,
  repaired, completed, queued, cancelled, retried, checked_in, checked_out, started_over, saved,
  forced,
}

abbrev pub SoundDb : Db → Type 0
SoundDb db = LaneInv db.checkouts db.jobs

abbrev SoundPair {ℓ} : {A : Type ℓ} → A × Db → Type 0
SoundPair r = SoundDb r.1

pub no_jobs-LaneInv :
    (checkouts : List Checkout)
    → ((id : Uuid) → count (λ (c : Checkout). c.id == id) checkouts ≤ 1)
    → LaneInv checkouts []
unfolding count
no_jobs-LaneInv checkouts ids = record {
  distinct = λ k. omega arith;
  single = omega arith;
  owned = refl;
  live = refl;
  one_review = λ k. omega arith;
  rooted = refl;
  checkout_ids = ids;
}

-- What always holds of a result holds of the value that it has.
value_of {ℓ κ} :
    {E : Type ℓ} {A : Type κ} (P : A → Type 0) (r : Result E A) (a : A)
    → r ≡ ok a
    → Always P r
    → P a
value_of P r a e h = subst (Always P) e h

abbrev no_timing : Timing
no_timing = record { now = 0; lease_duration_ms = none; retry_delays_ms = none }

module _ (test : Matcher) where
  claimed-LaneInv :
      (db db' : Db) (timing : Timing) (token : Uuid) (lease : Millis) (id : Option Uuid)
      → lease_duration_ms timing ≡ ok lease
      → claim_next_review timing token db ≡ ok (id, db')
      → LaneInv db.checkouts db.jobs
      → LaneInv db'.checkouts db'.jobs
  claimed-LaneInv db db' timing token lease id valid e inv =
      let (id2, db2, e1, e2, inv2, granted) = claim-LaneInv timing token db lease valid inv in
      value_of (λ (r : Option Uuid × Db). LaneInv r.1.checkouts r.1.jobs) (ok (id2, db2)) (id, db')
        (sym e2 ∙ e) inv2

  Step-LaneInv : {db db' : Db} → Step test db db' → SoundDb db → SoundDb db'
  Step-LaneInv {db} {db'} (claimed timing token lease id valid e) inv =
      claimed-LaneInv db db' timing token lease id valid e inv
  Step-LaneInv {db} (renewed timing a e) inv = subst Sound e (renew-LaneInv timing db inv a)
  Step-LaneInv {db} (started x) inv = started-LaneInv no_timing db inv x
  Step-LaneInv {db} {db'} (committed timing g hash b e) inv =
      subst SoundReport e (committed-LaneInv timing db inv g hash)
  Step-LaneInv (ended now run_id) inv = inv
  Step-LaneInv {db} (readied step_id) inv = readied-LaneInv no_timing db inv step_id
  Step-LaneInv {db} (failed timing g attempt phase e retry_at step keys) inv =
      settle_failure-LaneInv test timing db inv g attempt phase e retry_at step keys
  Step-LaneInv {db} (broken timing g phase e step) inv =
      application_failure-LaneInv test timing db inv g 0 phase e step
  Step-LaneInv {db} {db'} (repaired a builder_id audit_id b e) inv =
      subst SoundReport e (repair-LaneInv no_timing db inv a builder_id audit_id)
  Step-LaneInv {db} {db'} (completed now id job_id input e) inv =
      subst Sound e (completed-LaneInv (record no_timing { now = now }) db inv id job_id input)
  Step-LaneInv {db} {db'} (queued out input job fresh e) inv =
      value_of SoundPair (queue_review out input db) (job, db') e
        (queue_review-LaneInv out db inv fresh input)
  Step-LaneInv {db} {db'} (cancelled now input reason e) inv =
      value_of SoundPair (cancel_review now input reason db) (tt, db') e
        (cancel_review-LaneInv now input reason db inv)
  Step-LaneInv {db} {db'} (retried out input e) inv =
      value_of SoundPair (retry_review out input db) (tt, db') e
        (retry_review-LaneInv out db inv input)
  Step-LaneInv {db} {db'} (checked_in now actor_id checkout_id fence e) inv =
      value_of SoundPair (check_in_situation now actor_id checkout_id fence db) (tt, db') e
        (check_in-LaneInv now db inv actor_id checkout_id fence)
  Step-LaneInv {db} {db'} (checked_out out situation_id actor_id c fresh unused e) inv =
      value_of SoundPair (checkout_situation out situation_id actor_id db) (c, db') e
        (checkout_situation-LaneInv out actor_id db inv fresh unused situation_id)
  Step-LaneInv {db} {db'} (started_over out actor_id checkout_id fence d e) inv =
      value_of SoundPair (start_over_from_production out actor_id checkout_id fence db) (d, db') e
        (start_over-LaneInv out actor_id checkout_id fence db inv)
  Step-LaneInv {db} {db'} (saved now id input r e) inv =
      value_of SoundPair (create_revision now id input db) (r, db') e
        (create_revision-LaneInv db inv now id input)
  Step-LaneInv {db} {db'} (forced text now admin_id situation_id reason e) inv =
      value_of SoundPair (force_check_in_situation text now admin_id situation_id reason db)
        (tt, db') e (force_check_in-LaneInv now db inv text admin_id situation_id reason)

  pub Run-LaneInv : {db db' : Db} → Run test db db' → SoundDb db → SoundDb db'
  Run-LaneInv stay inv = inv
  Run-LaneInv (then s r) inv = Run-LaneInv r (Step-LaneInv s inv)

-- Starting from a database without reviews, whose checkouts have distinct ids, and after any
-- sequence of claims, lease renewals, starts of stages, reports, repairs and completions by any number
-- of workers, whether or not these still hold the jobs that they write, and of checking out, starting
-- over, saving, queueing, cancelling, retrying, checking in and forced check-ins by editors, at most one
-- job has the lane, at most one job runs, each situation has at most one queued or running review, and
-- every running job has the lane and a checkout that is not released. A report that queues a job again
-- commits only where the unique index of active reviews allows it.
pub reachable_lane :
    (test : Matcher) (db db' : Db)
    → db.jobs ≡ []
    → ((id : Uuid) → count (λ (c : Checkout). c.id == id) db.checkouts ≤ 1)
    → Run test db db'
    → (count (λ (j : ReviewJob). j.lane_owner) db'.jobs ≤ 1)
      × (count (λ (j : ReviewJob). is_running j.state) db'.jobs ≤ 1)
      × ((id : Uuid)
          → count (λ (j : ReviewJob). is_active j.state && j.situation_id == id) db'.jobs ≤ 1)
      × (any (λ j. is_running j.state && not j.lane_owner) db'.jobs ≡ false)
      × (any (λ j. is_running j.state && not (checkout_active db'.checkouts j)) db'.jobs ≡ false)
reachable_lane test db db' empty ids run =
    let inv = Run-LaneInv test run (rw (empty) (no_jobs-LaneInv db.checkouts ids)) in
    (
      inv.single,
      omega (
        arith,
        inv.single,
        count_split (λ (j : ReviewJob). is_running j.state) (λ j. j.lane_owner) db'.jobs,
        count-zero (λ (j : ReviewJob). is_running j.state && not j.lane_owner) db'.jobs inv.owned,
      ),
      inv.one_review,
      inv.owned,
      inv.live,
    )
