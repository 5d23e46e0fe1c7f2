-- ===== src/Worker/Success.antt =====
-- `renewReviewLease` and `recordSuccess`. A worker that has lost its authority finds no row.
use situation_studio.Prelude.{
  ◌+◌, Bool, false, ◌&&◌, some, List, Millis, Uuid, Digest, ◌==◌, if◌then◌else◌, any,
}
use situation_studio.Prelude.Rows.{update_many, count}
use situation_studio.Prelude.Results.{Result, ok, err, ◌>>=◌, ◌>>◌, require}
use situation_studio.Store.{Db, ReviewJob, ReviewStep, StepState, FailureClass, step_is_running}
use situation_studio.Worker.Failure.{
  WorkerError, row_missing, invalid_metadata, Timing, lease_duration_ms,
}
use situation_studio.Worker.Steps.{
  Authority, is_held, update_steps, all_steps, update_run, cancel_run, Stage,
}

unfoldable pub renew_review_lease : Timing → Authority → Db → Result WorkerError Db
unfolding is_held
renew_review_lease timing a db = do
  lease ← lease_duration_ms timing
  if count (is_held a) db.jobs == 1
      then ok (record db {
        jobs =
            update_many (is_held a) (λ j. record j { lease_expires_at = some (timing.now + lease) })
              db.jobs;
      })
      else err (
          WorkerError.failure (record {
            failure_class = FailureClass.cancelled;
            message = "Review authority was cancelled or reclaimed.";
            retryable = false;
          }))

unfoldable pub succeed_step : Uuid → Digest → Millis → List ReviewJob → List ReviewJob
unfolding update_steps
succeed_step step_id hash now =
    update_steps (λ _ s. s.id == step_id && step_is_running s.state)
      (λ s. record s {
        state = StepState.succeeded;
        output_hash = some hash;
        finished_at = some now;
      })

-- The writes of `recordSuccess` for a job that was found: whether one step was committed.
unfoldable pub write_success : Timing → Stage → Digest → Db → Result WorkerError (Bool × Db)
unfolding update_run succeed_step all_steps
write_success timing g hash db = do
  require g.metadata_is_valid invalid_metadata
  require (any (λ r. r.id == g.run_id) db.runs) row_missing
  ok (
    count (λ (s : ReviewStep). s.id == g.step_id && step_is_running s.state) (all_steps db.jobs)
        == 1,
    record db {
      runs =
          update_run g.run_id
            (λ r. record r { output_hash = some hash; finished_at = some timing.now }) db.runs;
      jobs = succeed_step g.step_id hash timing.now db.jobs;
    },
  )

-- The transaction of `recordSuccess` where it runs alone: the check, and then the writes.
-- `readyDependents` follows it outside.
unfoldable pub commit_success : Timing → Stage → Digest → Db → Result WorkerError (Bool × Db)
unfolding is_held cancel_run write_success
commit_success timing g hash db =
    if any (is_held g.authority) db.jobs
    then write_success timing g hash db
    else ok (false, record db { runs = cancel_run timing.now g.run_id db.runs })
