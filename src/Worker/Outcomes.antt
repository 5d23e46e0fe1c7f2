-- ===== src/Worker/Outcomes.antt =====
-- After a failed stage: the worker has no authority left, and the attempts are bounded.
use situation_studio.Prelude.{
  ℕ, ◌≡◌, ◌≤◌, refl, Bool, true, false, ◌&&◌, not, Option, none, some, arith, any, ◌==◌, Millis,
  if◌then◌else◌,
}
use situation_studio.Prelude.Rows.{find_first}
use situation_studio.Prelude.Writes.{any-update_many_all}
use situation_studio.Prelude.Results.{Result, ok, err, Always}
use situation_studio.Store.{FailureClass, Db, ReviewStep, FailurePhase, is_failed}
use situation_studio.Worker.Failure.{
  Thrown, WorkerError, Timing, Matcher, AdapterFailure, failure_reason_code,
  review_stage_max_attempts,
}
use situation_studio.Worker.Lane.{update_job}
use situation_studio.Worker.Steps.{Stage, is_held, all_steps}
use situation_studio.Worker.Failing.{
  record_failure, settle_failure, as_adapter_failure, retry_time, retries_automatically,
  requeue_job, fail_job, rewind_step, fail_step,
}
use situation_studio.Worker.Application.{
  record_application_failure, settle_application_failure, application_failure, fail_begun_step,
  is_materialize, reset_later,
}

module _ (test : Matcher) (timing : Timing) (g : Stage) (attempt : ℕ) (phase : FailurePhase)
    (db : Db) where
  settled-unheld :
      (e : AdapterFailure) (at : Option Millis) (step : ReviewStep)
      → any (is_held g.authority) (settle_failure test timing g attempt phase e at step db).jobs
        ≡ false
  unfolding settle_failure is_held update_job requeue_job fail_job
  settled-unheld e none step =
      any-update_many_all (is_held g.authority) (λ x. x.id == g.authority.job_id)
        (fail_job e.failure_class (failure_reason_code test e phase) phase step timing.now)
        (λ x h. ground arith) (λ x h. ground arith) (fail_step g.step_id timing.now db.jobs)
  settled-unheld e (some at) step =
      any-update_many_all (is_held g.authority) (λ x. x.id == g.authority.job_id)
        (requeue_job e.failure_class (failure_reason_code test e phase) phase step at)
        (λ x h. ground arith) (λ x h. ground arith) (rewind_step g.step_id db.jobs)

  application-unheld :
      (e : AdapterFailure) (step : ReviewStep)
      → any
          (is_held g.authority)
          (settle_application_failure test timing g.authority g.step_id phase e step db).jobs
        ≡ false
  unfolding settle_application_failure is_held update_job fail_job
  application-unheld e step =
      any-update_many_all (is_held g.authority) (λ x. x.id == g.authority.job_id)
        (fail_job FailureClass.application (failure_reason_code test e phase) phase step timing.now)
        (λ x h. ground arith) (λ x h. ground arith)
        (fail_begun_step test g.step_id timing.now (
          if is_materialize test phase
          then reset_later test g.authority.job_id step.ordinal db.jobs
          else db.jobs))

  abbrev Unheld : Result WorkerError Db → Type 0
  Unheld = Always (λ (db' : Db). any (is_held g.authority) db'.jobs ≡ false)

  stage_failed :
      (thrown : Thrown) (r : Result WorkerError (Option Millis)) (v b w : Bool)
      (o : Option ReviewStep)
      → retry_time timing thrown attempt ≡ r
      → g.metadata_is_valid ≡ v
      → any (is_held g.authority) db.jobs ≡ b
      → any (λ x. x.id == g.run_id) db.runs ≡ w
      → find_first (λ (s : ReviewStep). s.id == g.step_id) (all_steps db.jobs) ≡ o
      → Unheld (record_failure test timing g attempt phase thrown db)
  unfolding record_failure
  stage_failed thrown (err x) v b w o e ev eb ew eo = rw (e, record_failure) tt
  stage_failed thrown (ok at) false b w o e ev eb ew eo = rw (e, record_failure, ev) tt
  stage_failed thrown (ok at) true false w o e ev eb ew eo = rw (e, record_failure, ev, eb) eb
  stage_failed thrown (ok at) true true w none e ev eb ew eo = rw (e, record_failure, ev, eb, eo) tt
  stage_failed thrown (ok at) true true false (some step) e ev eb ew eo =
      rw (e, record_failure, ev, eb, eo, ew) tt
  stage_failed thrown (ok at) true true true (some step) e ev eb ew eo =
      rw (e, record_failure, ev, eb, eo, ew) (settled-unheld (as_adapter_failure thrown) at step)

  application_failed :
      (thrown : Thrown) (b : Bool) (o : Option ReviewStep)
      → any (is_held g.authority) db.jobs ≡ b
      → find_first (λ (s : ReviewStep). s.id == g.step_id) (all_steps db.jobs) ≡ o
      → Unheld (record_application_failure test timing g.authority g.step_id phase thrown db)
  unfolding record_application_failure
  application_failed thrown false o eb eo = rw (eb) eb
  application_failed thrown true none eb eo = rw (eb, eo) tt
  application_failed thrown true (some step) eb eo =
      rw (eb, eo) (application-unheld (application_failure test thrown) step)

  -- Whatever a stage fails with, and whether or not it will be tried again, if recording the failure
  -- succeeds, in a transaction that runs alone, then no job is held by the worker's fence and claim
  -- token afterwards; the same goes for a
  -- failure of the application.
  pub failure_surrenders :
      (thrown : Thrown)
      → Always
          (λ (db' : Db). any (is_held g.authority) db'.jobs ≡ false)
          (record_failure test timing g attempt phase thrown db)
        × Always
            (λ (db' : Db). any (is_held g.authority) db'.jobs ≡ false)
            (record_application_failure test timing g.authority g.step_id phase thrown db)
  failure_surrenders thrown =
      let o = find_first (λ (s : ReviewStep). s.id == g.step_id) (all_steps db.jobs) in
      let b = any (is_held g.authority) db.jobs in
      (
        stage_failed thrown (retry_time timing thrown attempt) g.metadata_is_valid b
            (any (λ x. x.id == g.run_id) db.runs) o refl refl refl refl refl,
        application_failed thrown b o refl refl,
      )

module _ (test : Matcher) (timing : Timing) (g : Stage) (attempt : ℕ) (phase : FailurePhase)
    (db : Db) where
  last_attempt :
      (thrown : Thrown)
      → review_stage_max_attempts ≤ attempt
      → retry_time timing thrown attempt ≡ ok none
  unfolding retry_time retries_automatically
  last_attempt thrown h = ground arith

  -- The third attempt of a stage, or a later one, is the last: when it fails while the worker holds the
  -- job, its step and its run are there and the reported attempts fit their schema, recording that
  -- in a transaction that runs alone succeeds whatever the configured delays are, and leaves the review
  -- failed and without the lane.
  pub attempts_bounded :
      (thrown : Thrown) (step : ReviewStep)
      → review_stage_max_attempts ≤ attempt
      → any (is_held g.authority) db.jobs ≡ true
      → find_first (λ (s : ReviewStep). s.id == g.step_id) (all_steps db.jobs) ≡ some step
      → any (λ r. r.id == g.run_id) db.runs ≡ true
      → g.metadata_is_valid ≡ true
      → (db' : Db) × (record_failure test timing g attempt phase thrown db ≡ ok db')
        × (any
              (λ j. j.id == g.authority.job_id && not (is_failed j.state && not j.lane_owner))
              db'.jobs
            ≡ false)
  unfolding record_failure settle_failure update_job fail_job
  attempts_bounded thrown step n held found run valid =
      let e = as_adapter_failure thrown in
      (
        settle_failure test timing g attempt phase e none step db,
        rw (last_attempt thrown n, record_failure, valid, held, found, run) refl,
        any-update_many_all
            (λ j. j.id == g.authority.job_id && not (is_failed j.state && not j.lane_owner))
            (λ x. x.id == g.authority.job_id)
            (fail_job e.failure_class (failure_reason_code test e phase) phase step timing.now)
            (λ x h. ground arith) (λ x h. ground arith) (fail_step g.step_id timing.now db.jobs),
      )
