-- ===== src/Worker/Failing.antt =====
-- `recordFailure`: a stage ends in an error, and is tried again or fails its review.
use situation_studio.Prelude.{
  ℕ, ◌+◌, Bool, true, false, ◌&&◌, Option, none, some, List, [], ◌∷◌, ◌++◌, Millis, Uuid, ltb, ◌==◌,
  if◌then◌else◌, any, is_some,
}
use situation_studio.Prelude.Rows.{find_first}
use situation_studio.Prelude.Results.{Result, ok, err, ◌>>=◌, ◌>>◌, require}
use situation_studio.Store.{
  Db, ReviewJob, ReviewStep, JobState, StepState, FailureClass, FailurePhase, ReasonCode,
  AuditAction, AuditEvent, review_stage_failed, review_automatic_retry_scheduled,
}
use situation_studio.Worker.Failure.{
  AdapterFailure, Thrown, adapter, WorkerError, row_missing, invalid_metadata, Timing, Matcher,
  retry_delay_ms, agent_failure_class, is_retryable_provider_failure, failure_reason_code,
  review_stage_max_attempts,
}
use situation_studio.Worker.Lane.{update_job}
use situation_studio.Worker.Steps.{is_held, update_steps, all_steps, update_run, cancel_run, Stage}

abbrev pub as_adapter_failure : Thrown → AdapterFailure
as_adapter_failure (adapter e) = e
as_adapter_failure _ = record {
  failure_class = FailureClass.application;
  message = "Review stage failed.";
  retryable = false;
}

abbrev pub is_adapter : Thrown → Bool
is_adapter (adapter e) = true
is_adapter _ = false

unfoldable pub retries_automatically : Thrown → ℕ → Bool
unfolding is_retryable_provider_failure
retries_automatically thrown attempt =
    is_adapter thrown
    && is_retryable_provider_failure (as_adapter_failure thrown)
    && ltb attempt review_stage_max_attempts

unfoldable pub retry_time : Timing → Thrown → ℕ → Result WorkerError (Option Millis)
unfolding retries_automatically
retry_time timing thrown attempt =
    if retries_automatically thrown attempt
    then (do delay ← retry_delay_ms attempt timing; ok (some (timing.now + delay)))
    else ok none

-- The step goes back to the queue.
unfoldable pub rewind_step : Uuid → List ReviewJob → List ReviewJob
unfolding update_steps
rewind_step step_id =
    update_steps (λ _ s. s.id == step_id)
      (λ s. record s { state = StepState.ready; started_at = none; finished_at = none })

unfoldable pub fail_step : Uuid → Millis → List ReviewJob → List ReviewJob
unfolding update_steps
fail_step step_id now =
    update_steps (λ _ s. s.id == step_id)
      (λ s. record s { state = StepState.failed; finished_at = some now })

-- The columns that say why a job is not running.
abbrev blame : FailureClass → ReasonCode → FailurePhase → ReviewStep → ReviewJob → ReviewJob
blame code reason phase step j = record j {
  failure_code = some code;
  failure_reason_code = some reason;
  failure_phase = some phase;
  failure_stage_ordinal = some step.ordinal;
  failure_stage_role = some step.role_code;
  claim_token = none;
  lease_expires_at = none;
}

unfoldable pub requeue_job :
    FailureClass → ReasonCode → FailurePhase → ReviewStep → Millis → ReviewJob → ReviewJob
requeue_job code reason phase step retry_at j =
    let k = blame code reason phase step j in
    record k { state = JobState.queued; finished_at = none; retry_not_before = some retry_at }

unfoldable pub fail_job :
    FailureClass → ReasonCode → FailurePhase → ReviewStep → Millis → ReviewJob → ReviewJob
fail_job code reason phase step now j =
    let k = blame code reason phase step j in
    record k {
      state = JobState.failed;
      finished_at = some now;
      retry_not_before = none;
      lane_owner = false;
    }

abbrev pub worker_event : Uuid → AuditAction → AuditEvent
worker_event job_id action = record { actor_id = none; action = action; subject_id = job_id }

module _ (test : Matcher) where
  -- The part of the transaction after the job, its step and its run are found.
  unfoldable pub settle_failure :
      Timing → Stage → ℕ → FailurePhase → AdapterFailure → Option Millis → ReviewStep → Db → Db
  unfolding update_run rewind_step fail_step requeue_job fail_job update_job
  settle_failure timing g attempt phase e retry_at step db =
      let job_id = g.authority.job_id in
      let class = agent_failure_class e.failure_class in
      let reason = failure_reason_code test e phase in
      let runs' =
        update_run g.run_id
          (λ r. record r {
            failure_class = some class;
            retryable = some e.retryable;
            finished_at = some timing.now;
          })
          db.runs in
      let failed = worker_event job_id (
        review_stage_failed step.ordinal step.role_code phase class reason (is_some retry_at)
          (some attempt)) in
      elim retry_at [
        | none ↦ record db {
          runs = runs';
          jobs =
              update_job job_id (fail_job e.failure_class reason phase step timing.now)
                (fail_step g.step_id timing.now db.jobs);
          audit = db.audit ++ failed ∷ [];
        }
        | some at ↦ record db {
          runs = runs';
          jobs =
              update_job job_id (requeue_job e.failure_class reason phase step at)
                (rewind_step g.step_id db.jobs);
          audit =
              db.audit
              ++ failed
                ∷ worker_event job_id (
                    review_automatic_retry_scheduled step.ordinal step.role_code phase class reason
                      attempt review_stage_max_attempts at)
                ∷ [];
        }
      ]

  -- `recordFailure` where its transaction runs alone: the check, and then the writes.
  unfoldable pub record_failure :
      Timing → Stage → ℕ → FailurePhase → Thrown → Db → Result WorkerError Db
  unfolding is_held cancel_run retry_time settle_failure all_steps
  record_failure timing g attempt phase thrown db = do
    retry_at ← retry_time timing thrown attempt
    require g.metadata_is_valid invalid_metadata
    if any (is_held g.authority) db.jobs
        then (elim (find_first (λ (s : ReviewStep). s.id == g.step_id) (all_steps db.jobs)) [
          | none ↦ err row_missing
          | some step ↦
              if any (λ r. r.id == g.run_id) db.runs
              then ok (
                  settle_failure timing g attempt phase (as_adapter_failure thrown) retry_at step
                    db)
              else err row_missing
        ])
        else ok (record db { runs = cancel_run timing.now g.run_id db.runs })
