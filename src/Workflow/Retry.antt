-- ===== src/Workflow/Retry.antt =====
-- `retryReview`: a failed review goes on from its failed step.
use situation_studio.Prelude.{
  Bool, true, false, not, ◌&&◌, ◌==◌, none, some, List, [], ◌∷◌, ◌++◌, ltb,
}
use situation_studio.Prelude.Rows.{find_first}
use situation_studio.Prelude.Results.{Result, ok, require, ◌>>=◌, ◌>>◌}
use situation_studio.Store.{
  Db, ReviewJob, ReviewStep, JobState, StepState, is_failed, step_is_failed, step_is_succeeded,
  review_retried,
}
use situation_studio.Store.Keys.{review_keys}
use situation_studio.Worker.Lane.{update_job}
use situation_studio.Worker.Steps.{update_steps}
use situation_studio.Workflow.Failure.{
  WorkflowError, unsafe_managed_mdx, failed_review_unavailable, stale_failed_review,
  reviewed_body_unavailable, original_checkout_inactive, no_failed_step, review_lane_busy,
  row_missing,
}
use situation_studio.Workflow.Guards.{assert_no_active_publication, find_held, non_empty, or_throw}
use situation_studio.Workflow.Review.{Outside, ReviewCommand}

-- The failed step is ready again, and every later one that has not succeeded waits.
unfoldable pub resume_steps : ReviewJob → ReviewStep → List ReviewJob → List ReviewJob
unfolding update_steps
resume_steps job failed jobs =
    update_steps
      (λ j s. j.id == job.id && ltb failed.ordinal s.ordinal && not (step_is_succeeded s.state))
      (λ s. record s { state = StepState.pending; started_at = none; finished_at = none })
      (update_steps (λ _ s. s.id == failed.id)
        (λ s. record s { state = StepState.ready; started_at = none; finished_at = none }) jobs)

unfoldable pub requeue_retried : ReviewJob → ReviewJob
requeue_retried j = record j {
  state = JobState.queued;
  finished_at = none;
  failure_code = none;
  claim_token = none;
  lease_expires_at = none;
  retry_not_before = none;
  lane_owner = true;
}

-- Another review holds the lane.
unfoldable pub lane_is_busy : ReviewJob → List ReviewJob → Bool
lane_is_busy job jobs = elim (find_first (λ j. j.lane_owner) jobs) [
  | none ↦ false
  | some owner ↦ not (owner.id == job.id)
]

-- The lane's check and the writes of `retryReview`.
unfoldable pub resume_review : ReviewCommand → Db → ReviewJob → Result WorkflowError (Unit {0} × Db)
unfolding resume_steps requeue_retried lane_is_busy update_job
resume_review input db job = do
  failed ← or_throw (find_first (λ s. step_is_failed s.state) job.steps) no_failed_step
  require (not (lane_is_busy job db.jobs)) review_lane_busy
  let jobs' = update_job job.id requeue_retried (resume_steps job failed db.jobs)
  require (review_keys job.situation_id jobs') review_lane_busy
  ok (
    tt,
    record db {
      jobs = jobs';
      audit =
          db.audit
          ++ record {
            actor_id = some input.actor_id;
            action = review_retried failed.ordinal job.input_revision_id job.input_bundle_hash;
            subject_id = job.id;
          }
            ∷ [];
    },
  )

unfoldable pub retry_review : Outside → ReviewCommand → Db → Result WorkflowError (Unit {0} × Db)
unfolding resume_review
retry_review out input db = do
  job ←
      or_throw (find_first (λ j. j.id == input.job_id && is_failed j.state) db.jobs)
        failed_review_unavailable
  require (job.input_revision_id == input.revision_id && job.input_bundle_hash == input.bundle_hash)
      stale_failed_review
  revision ← or_throw (find_first (λ r. r.id == job.input_revision_id) db.revisions) row_missing
  body ← or_throw (non_empty revision.body) reviewed_body_unavailable
  require (out.is_safe_mdx body) unsafe_managed_mdx
  checkout ←
      or_throw (find_held job.checkout_id input.actor_id job.checkout_fence db)
        original_checkout_inactive
  assert_no_active_publication checkout.situation_id db
  resume_review input db job
