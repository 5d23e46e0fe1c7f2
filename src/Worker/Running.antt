-- ===== src/Worker/Running.antt =====
-- `processClaimedReview` and `materializeProposal` of apps/review-worker/src/review.ts: the transactions
-- that start a stage and that complete a review. The agents' calls between them are not modelled.
use situation_studio.Prelude.{
  ℕ, ◌+◌, Bool, true, false, ◌&&◌, ◌||◌, not, none, some, List, [], ◌∷◌, ◌++◌, String, Millis, Uuid,
  ◌==◌, if◌then◌else◌, any,
}
use situation_studio.Prelude.Rows.{count}
use situation_studio.Prelude.Results.{Result, ok, err, ◌>>=◌}
use situation_studio.Store.{
  Db, ReviewJob, ReviewStep, AgentRun, Proposal, Revision, JobState, StepState, FailureClass,
  step_is_ready,
}
use situation_studio.Worker.Failure.{WorkerError, failure}
use situation_studio.Worker.Lane.{update_job}
use situation_studio.Worker.Steps.{Authority, is_held, update_steps, all_steps}
use situation_studio.Workflow.Guards.{latest_revision}

-- The run of a stage that starts; `attempt` counts the runs before it.
pub record Start : Type 0 where
  pub run_id : Uuid
  pub step_id : Uuid
  pub attempt : ℕ
  pub requested_provider : String
  pub requested_model : String
  pub started_at : Millis

abbrev new_run : Start → AgentRun
new_run x = record {
  id = x.run_id;
  step_id = x.step_id;
  attempt = x.attempt + 1;
  requested_provider = x.requested_provider;
  requested_model = x.requested_model;
  output_hash = none;
  failure_class = none;
  retryable = none;
  started_at = x.started_at;
  finished_at = none;
}

unfoldable pub begin_step : Start → List ReviewJob → List ReviewJob
unfolding update_steps
begin_step x =
    update_steps (λ _ s. s.id == x.step_id && step_is_ready s.state)
      (λ s. record s {
        state = StepState.running;
        started_at = some x.started_at;
        finished_at = none;
      })

-- The writes that start a stage, for a job that was found: whether there is a run.
unfoldable pub write_start : Start → Db → Bool × Db
unfolding begin_step all_steps
write_start x db =
    let jobs' = begin_step x db.jobs in
    if count (λ (s : ReviewStep). s.id == x.step_id && step_is_ready s.state) (all_steps db.jobs)
      == 1
    then (true, record db { jobs = jobs'; runs = db.runs ++ new_run x ∷ [] })
    else (false, record db { jobs = jobs' })

-- The check, and then the writes, where the transaction runs alone.
unfoldable pub start_stage : Authority → Start → Db → Bool × Db
unfolding is_held write_start
start_stage a x db = if any (is_held a) db.jobs then write_start x db else (false, db)

unfoldable pub succeed_job : Millis → ReviewJob → ReviewJob
succeed_job now j = record j {
  state = JobState.succeeded;
  finished_at = some now;
  lane_owner = false;
  retry_not_before = none;
  failure_code = none;
  failure_reason_code = none;
  failure_phase = none;
  failure_stage_ordinal = none;
  failure_stage_role = none;
  claim_token = none;
  lease_expires_at = none;
}

-- A proposal for the revision that was reviewed is superseded where the draft has moved on.
unfoldable pub new_proposal : Millis → Uuid → Uuid → Revision → Revision → Proposal
new_proposal now id job_id input latest =
    let superseded = not (latest.id == input.id) || not (latest.bundle_hash == input.bundle_hash) in
    record {
      id = id;
      job_id = job_id;
      current_revision_id = input.id;
      superseded_at = if superseded then some now else none;
      superseded_by_revision_id = if superseded then some latest.id else none;
    }

-- The rows of proposals, with that of a job that has none yet; its findings and changes are left out.
unfoldable pub with_proposal :
    Millis → Uuid → Uuid → Revision → Db → Result WorkerError (List Proposal)
unfolding new_proposal
with_proposal now id job_id input db =
    if any (λ p. p.job_id == job_id) db.proposals
    then ok db.proposals
    else (elim (latest_revision input.draft_id db.revisions) [
      | none ↦ err (
          failure (record {
            failure_class = FailureClass.application;
            message = "The review input draft no longer has an authoritative revision.";
            retryable = false;
          }))
      | some latest ↦ ok (db.proposals ++ new_proposal now id job_id input latest ∷ [])
    ])

-- The writes of `materializeProposal` for a job that was found; `input` is the revision it reviewed.
unfoldable pub write_completion : Millis → Uuid → Uuid → Revision → Db → Result WorkerError Db
unfolding with_proposal update_job succeed_job
write_completion now id job_id input db = do
  proposals' ← with_proposal now id job_id input db
  ok (record db { proposals = proposals'; jobs = update_job job_id (succeed_job now) db.jobs })

-- The check, and then the writes, where the transaction runs alone.
unfoldable pub complete_review : Millis → Uuid → Authority → Revision → Db → Result WorkerError Db
unfolding is_held write_completion
complete_review now id a input db =
    if any (is_held a) db.jobs then write_completion now id a.job_id input db else ok db
