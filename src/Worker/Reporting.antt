-- ===== src/Worker/Reporting.antt =====
-- What a worker reports keeps the invariant of the lane: each report, on every branch.
use situation_studio.Prelude.{
  ℕ, ◌+◌, ◌≡◌, refl, inl, inr, Bool, true, ◌&&◌, not, Option, none, some, List, arith, any, Uuid,
  Digest, ltb, if◌then◌else◌, ◌==◌, Bool-cases, Millis,
}
use situation_studio.Prelude.Rows.{count, count-update_many-le}
use situation_studio.Prelude.Writes.{any-update_many_of}
use situation_studio.Prelude.Results.{Result, ok, err, Result-cases}
use situation_studio.Store.{
  StepState, step_is_cancelled, step_is_running, step_is_ready, step_is_pending, step_has_begun, Db,
  ReviewJob, ReviewStep, Checkout, FailureClass, FailurePhase, ReasonCode, Revision, is_running,
}
use situation_studio.Store.Keys.{one_active_review}
use situation_studio.Worker.Failure.{
  failure_reason_code, review_max_repair_attempts, WorkerError, Timing, Matcher, AdapterFailure,
  lease_duration_ms,
}
use situation_studio.Worker.Lane.{update_job, checkout_active}
use situation_studio.Worker.Lane.Invariant.{LaneInv, is_misplaced}
use situation_studio.Worker.Steps.{Authority, update_steps, ready_step, Stage, all_steps, is_held}
use situation_studio.Worker.Steps.Untouched.{update_steps-LaneInv}
use situation_studio.Worker.Success.{renew_review_lease, write_success, succeed_step}
use situation_studio.Worker.Failing.{settle_failure, rewind_step, fail_step, requeue_job, fail_job}
use situation_studio.Worker.Application.{
  settle_application_failure, reset_later, fail_begun_step, is_materialize,
}
use situation_studio.Worker.Repair.{completed_audits, write_repair, reopen_step, has_step}
use situation_studio.Worker.Running.{
  Start, write_start, begin_step, write_completion, with_proposal, succeed_job,
}
use situation_studio.Worker.Keeping.{Harmless, harmless-LaneInv, update_job-LaneInv}

fail_job-Harmless :
    (p : ReviewJob → Bool) (code : FailureClass) (reason : ReasonCode) (phase : FailurePhase)
    (step : ReviewStep) (now : Millis)
    → Harmless p (fail_job code reason phase step now)
unfolding fail_job
fail_job-Harmless p code reason phase step now = record {
  ids = λ x. refl;
  situations = λ x. refl;
  checkouts = λ x. refl;
  fences = λ x. refl;
  lanes = λ x. ground arith;
  keeps = λ x. ground arith;
  actives = λ x. ground arith;
}

-- The job is queued again whether or not it still runs; the unique index refuses a second active review.
module _ (code : FailureClass) (reason : ReasonCode) (phase : FailurePhase) (step : ReviewStep)
    (at : Millis) (id : Uuid) where
  abbrev requeued : List ReviewJob → List ReviewJob
  requeued = update_job id (requeue_job code reason phase step at)

  requeued-LaneInv :
      (checkouts : List Checkout) (jobs : List ReviewJob)
      → ((k : Uuid) → one_active_review k (requeued jobs) ≡ true)
      → LaneInv checkouts jobs
      → LaneInv checkouts (requeued jobs)
  unfolding update_job requeue_job one_active_review
  requeued-LaneInv checkouts jobs keys inv =
      let p : ReviewJob → Bool = λ x. x.id == id in
      let f : ReviewJob → ReviewJob = requeue_job code reason phase step at in
      record {
        distinct = λ k.
            omega
              (arith, inv.distinct k, count-update_many-le (λ x. x.id == k) p f (λ x h. h) jobs);
        single =
            omega (arith, inv.single, count-update_many-le (λ x. x.lane_owner) p f (λ x h. h) jobs);
        owned =
            any-update_many_of (λ x. is_running x.state && not x.lane_owner) p f (λ x. ground arith)
              jobs inv.owned;
        live =
            any-update_many_of (λ x. is_running x.state && not (checkout_active checkouts x)) p f
              (λ x. ground arith) jobs inv.live;
        one_review = λ k. ground (arith, keys k);
        rooted =
            any-update_many_of (is_misplaced checkouts) p f (λ x e. unfold is_misplaced in (λ t. t))
              jobs inv.rooted;
        checkout_ids = inv.checkout_ids;
      }

-- What a worker writes, if it writes, leaves the lane sound.
abbrev pub Sound : Result WorkerError Db → Type 0
Sound (ok db') = LaneInv db'.checkouts db'.jobs
Sound (err e) = Unit

abbrev pub SoundPair : Result WorkerError (Bool × Db) → Type 0
SoundPair (ok r) = LaneInv r.1.checkouts r.1.jobs
SoundPair (err e) = Unit

succeed_job-Harmless : (p : ReviewJob → Bool) (now : Millis) → Harmless p (succeed_job now)
unfolding succeed_job
succeed_job-Harmless p now = record {
  ids = λ x. refl;
  situations = λ x. refl;
  checkouts = λ x. refl;
  fences = λ x. refl;
  lanes = λ x. ground arith;
  keeps = λ x. ground arith;
  actives = λ x. ground arith;
}

module _ (test : Matcher) (timing : Timing) (db : Db) (inv : LaneInv db.checkouts db.jobs)
    (g : Stage) (attempt : ℕ) (phase : FailurePhase) where
  pub settle_failure-LaneInv :
      (e : AdapterFailure) (retry_at : Option Millis) (step : ReviewStep)
      → ((k : Uuid)
          → one_active_review k (settle_failure test timing g attempt phase e retry_at step db).jobs
            ≡ true)
      → let db' = settle_failure test timing g attempt phase e retry_at step db in
        LaneInv db'.checkouts db'.jobs
  unfolding settle_failure fail_step rewind_step
  settle_failure-LaneInv e none step keys =
      update_job-LaneInv db.checkouts g.authority.job_id
        (fail_job e.failure_class (failure_reason_code test e phase) phase step timing.now)
        (fail_job-Harmless (λ x. x.id == g.authority.job_id) e.failure_class
          (failure_reason_code test e phase) phase step timing.now)
        (fail_step g.step_id timing.now db.jobs)
        (update_steps-LaneInv db.checkouts (λ _ s. s.id == g.step_id)
          (λ s. record s { state = StepState.failed; finished_at = some timing.now }) db.jobs inv)
  settle_failure-LaneInv e (some at) step keys =
      requeued-LaneInv e.failure_class (failure_reason_code test e phase) phase step at
        g.authority.job_id db.checkouts (rewind_step g.step_id db.jobs) keys
        (update_steps-LaneInv db.checkouts (λ _ s. s.id == g.step_id)
          (λ s. record s { state = StepState.ready; started_at = none; finished_at = none }) db.jobs
          inv)

  reset_later-LaneInv :
      (ordinal : ℕ) → LaneInv db.checkouts (reset_later test g.authority.job_id ordinal db.jobs)
  unfolding reset_later
  reset_later-LaneInv ordinal =
      update_steps-LaneInv db.checkouts
        (λ j s.
          j.id == g.authority.job_id && ltb ordinal s.ordinal && not (step_is_cancelled s.state))
        (λ s. record s {
          state = StepState.pending;
          output_hash = none;
          started_at = none;
          finished_at = none;
        })
        db.jobs inv

  pub application_failure-LaneInv :
      (e : AdapterFailure) (step : ReviewStep)
      → let db' = settle_application_failure test timing g.authority g.step_id phase e step db in
        LaneInv db'.checkouts db'.jobs
  unfolding settle_application_failure fail_begun_step
  application_failure-LaneInv e step =
      let reset : List ReviewJob =
        if is_materialize test phase
        then reset_later test g.authority.job_id step.ordinal db.jobs
        else db.jobs in
      update_job-LaneInv db.checkouts g.authority.job_id
        (fail_job FailureClass.application (failure_reason_code test e phase) phase step timing.now)
        (fail_job-Harmless (λ x. x.id == g.authority.job_id) FailureClass.application
          (failure_reason_code test e phase) phase step timing.now)
        (fail_begun_step test g.step_id timing.now reset)
        (update_steps-LaneInv db.checkouts (λ _ s. s.id == g.step_id && step_has_begun s.state)
          (λ s. record s { state = StepState.failed; finished_at = some timing.now }) reset
          (elim (Bool-cases (is_materialize test phase)) [
            | inl m ↦ rw m (reset_later-LaneInv step.ordinal)
            | inr m ↦ rw m inv
          ]))

module _ (timing : Timing) (db : Db) (inv : LaneInv db.checkouts db.jobs) where
  pub readied-LaneInv : (step_id : Uuid) → LaneInv db.checkouts (ready_step step_id db.jobs)
  unfolding ready_step
  readied-LaneInv step_id =
      update_steps-LaneInv db.checkouts (λ _ s. s.id == step_id && step_is_pending s.state)
        (λ s. record s { state = StepState.ready }) db.jobs inv

  pub started-LaneInv :
      (x : Start) → LaneInv (write_start x db).1.checkouts (write_start x db).1.jobs
  unfolding write_start begin_step
  started-LaneInv x =
      let begun =
        update_steps-LaneInv db.checkouts (λ _ s. s.id == x.step_id && step_is_ready s.state)
          (λ s. record s {
            state = StepState.running;
            started_at = some x.started_at;
            finished_at = none;
          })
          db.jobs inv in
      elim (Bool-cases (
        count (λ (s : ReviewStep). s.id == x.step_id && step_is_ready s.state) (all_steps db.jobs)
        == 1)) [ inl h ↦ rw h begun | inr h ↦ rw h begun ]

  pub completed-LaneInv :
      (id job_id : Uuid) (input : Revision) → Sound (write_completion timing.now id job_id input db)
  unfolding write_completion
  completed-LaneInv id job_id input =
      elim (Result-cases (with_proposal timing.now id job_id input db)) [
        | inl (proposals, e) ↦ rw e (
            update_job-LaneInv db.checkouts job_id (succeed_job timing.now)
              (succeed_job-Harmless (λ x. x.id == job_id) timing.now) db.jobs inv)
        | inr (x, e) ↦ rw e tt
      ]

  pub committed-LaneInv : (g : Stage) (hash : Digest) → SoundPair (write_success timing g hash db)
  unfolding write_success succeed_step
  committed-LaneInv g hash = elim (Bool-cases g.metadata_is_valid) [
    | inr h ↦ rw h tt
    | inl h ↦ elim (Bool-cases (any (λ r. r.id == g.run_id) db.runs)) [
      | inr r ↦ rw (h, r) tt
      | inl r ↦
          rw (h, r)
            (update_steps-LaneInv db.checkouts (λ _ s. s.id == g.step_id && step_is_running s.state)
              (λ s. record s {
                state = StepState.succeeded;
                output_hash = some hash;
                finished_at = some timing.now;
              })
              db.jobs inv)
    ]
  ]

  pub repair-LaneInv :
      (job : Authority) (builder_id audit_id : Uuid)
      → SoundPair (write_repair job builder_id audit_id db)
  unfolding write_repair reopen_step
  repair-LaneInv job builder_id audit_id =
      let p : Uuid → ReviewJob → ReviewStep → Bool = λ id _ s. s.id == id in
      let f : StepState → ReviewStep → ReviewStep = λ st s. record s {
        state = st;
        output_hash = none;
        started_at = none;
        finished_at = none;
      } in
      let sound =
        update_steps-LaneInv db.checkouts (p audit_id) (f StepState.pending)
          (update_steps (p builder_id) (f StepState.ready) db.jobs)
          (update_steps-LaneInv db.checkouts (p builder_id) (f StepState.ready) db.jobs inv) in
      elim (Bool-cases (ltb review_max_repair_attempts (completed_audits audit_id db.runs))) [
        | inl h ↦ rw h inv
        | inr h ↦ elim (Bool-cases (has_step builder_id db && has_step audit_id db)) [
          | inl m ↦ rw (h, m) sound
          | inr m ↦ rw (h, m) tt
        ]
      ]

module _ (timing : Timing) (db : Db) (inv : LaneInv db.checkouts db.jobs) (a : Authority) where
  lease-Harmless :
      (lease : Millis)
      → Harmless (is_held a) (λ j. record j { lease_expires_at = some (timing.now + lease) })
  lease-Harmless lease = record {
    ids = λ x. refl;
    situations = λ x. refl;
    checkouts = λ x. refl;
    fences = λ x. refl;
    lanes = λ x h. h;
    keeps = λ x e h. (h, refl);
    actives = λ x e h. h;
  }

  renewed :
      (r : Result WorkerError ℕ)
      → lease_duration_ms timing ≡ r
      → Sound (renew_review_lease timing a db)
  unfolding renew_review_lease
  renewed (err x) e = rw (e) tt
  renewed (ok lease) e = elim (Bool-cases (count (is_held a) db.jobs == 1)) [
    | inl h ↦
        rw (e, h)
          (harmless-LaneInv db.checkouts (is_held a)
            (λ j. record j { lease_expires_at = some (timing.now + lease) }) (lease-Harmless lease)
            db.jobs inv)
    | inr h ↦ rw (e, h) tt
  ]

  pub renew-LaneInv : Sound (renew_review_lease timing a db)
  renew-LaneInv = renewed (lease_duration_ms timing) refl
