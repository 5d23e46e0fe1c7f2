-- ===== src/Worker/Application.antt =====
-- `recordApplicationFailure`: the worker's own processing failed, and the review with it.
use situation_studio.Prelude.{
  ℕ, Bool, true, false, ◌&&◌, none, some, List, [], ◌∷◌, ◌++◌, Millis, Uuid, ltb, ◌==◌,
  if◌then◌else◌, any, not,
}
use situation_studio.Prelude.Rows.{find_first}
use situation_studio.Prelude.Results.{Result, ok, err}
use situation_studio.Store.{
  Db, ReviewJob, ReviewStep, StepState, FailureClass, FailurePhase, materialize_proposal,
  review_stage_failed, step_is_cancelled, step_has_begun,
}
use situation_studio.Worker.Failure.{
  AdapterFailure, Thrown, adapter, error, value, WorkerError, Timing, Matcher, agent_failure_class,
  failure_reason_code,
}
use situation_studio.Worker.Lane.{update_job}
use situation_studio.Worker.Steps.{Authority, is_held, update_steps, all_steps}
use situation_studio.Worker.Failing.{fail_job, worker_event}

module _ (test : Matcher) where
  abbrev pub application_failure : Thrown → AdapterFailure
  application_failure (adapter e) = e
  application_failure (error message) = record {
    failure_class = FailureClass.application;
    message = message;
    retryable = false;
  }
  application_failure value = record {
    failure_class = FailureClass.application;
    message = "Review application processing failed.";
    retryable = false;
  }

  -- `state: { not: "CANCELLED" }`, over the later stages of the job.
  unfoldable pub reset_later : Uuid → ℕ → List ReviewJob → List ReviewJob
  unfolding update_steps
  reset_later job_id ordinal =
      update_steps
        (λ j s. j.id == job_id && ltb ordinal s.ordinal && not (step_is_cancelled s.state))
        (λ s. record s {
          state = StepState.pending;
          output_hash = none;
          started_at = none;
          finished_at = none;
        })

  unfoldable pub fail_begun_step : Uuid → Millis → List ReviewJob → List ReviewJob
  unfolding update_steps
  fail_begun_step step_id now =
      update_steps (λ _ s. s.id == step_id && step_has_begun s.state)
        (λ s. record s { state = StepState.failed; finished_at = some now })

  abbrev pub is_materialize : FailurePhase → Bool
  is_materialize materialize_proposal = true
  is_materialize _ = false

  -- Its writes for a job and a step that were found.
  unfoldable pub settle_application_failure :
      Timing → Authority → Uuid → FailurePhase → AdapterFailure → ReviewStep → Db → Db
  unfolding reset_later fail_begun_step fail_job update_job
  settle_application_failure timing a step_id phase e step db =
      let reason = failure_reason_code test e phase in
      let reset =
        if is_materialize phase then reset_later a.job_id step.ordinal db.jobs else db.jobs in
      record db {
        jobs =
            update_job a.job_id (fail_job FailureClass.application reason phase step timing.now)
              (fail_begun_step step_id timing.now reset);
        audit =
            db.audit
            ++ worker_event a.job_id (
                review_stage_failed step.ordinal step.role_code phase
                  (agent_failure_class e.failure_class) reason false none)
              ∷ [];
      }

  -- `recordApplicationFailure` where its transaction runs alone: the check, and then the writes.
  unfoldable pub record_application_failure :
      Timing → Authority → Uuid → FailurePhase → Thrown → Db → Result WorkerError Db
  unfolding is_held settle_application_failure all_steps
  record_application_failure timing a step_id phase thrown db =
      if any (is_held a) db.jobs
      then (elim (find_first (λ (s : ReviewStep). s.id == step_id) (all_steps db.jobs)) [
        | none ↦ err WorkerError.row_missing
        | some step ↦
            ok (
              settle_application_failure timing a step_id phase (application_failure thrown) step
                db)
      ])
      else ok db
