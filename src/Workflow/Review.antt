-- ===== src/Workflow/Review.antt =====
-- `queueReview`, `cancelReview` and `retryReview`.
use situation_studio.Prelude.{
  ℕ, ◌+◌, String, Bool, false, not, ◌&&◌, ◌==◌, Option, none, some, List, [], ◌∷◌, ◌++◌, map, Uuid,
  Digest, Millis, any, length, if◌then◌else◌,
}
use situation_studio.Prelude.Rows.{find_first, update_many}
use situation_studio.Prelude.Results.{Result, ok, require, ◌>>=◌, ◌>>◌}
use situation_studio.Store.{
  Db, ReviewJob, ReviewStep, Checkout, Revision, JobState, StepState, is_v2, is_unresolved,
  step_is_stoppable, review_queued, review_cancelled,
}
use situation_studio.Store.Keys.{one_active_review}
use situation_studio.Worker.Lane.{update_job}
use situation_studio.Workflow.Failure.{
  WorkflowError, checkout_not_active, review_focused_unresolved, draft_not_saved, stale_revision,
  body_not_saved, legacy_draft_requires_sync, unsafe_managed_mdx, review_already_active,
  review_not_stoppable, stale_review, checkout_owner_required,
}
use situation_studio.Workflow.Guards.{
  assert_no_active_publication, find_held, latest_revision, non_empty, or_throw,
}

-- What is not the program's: the content checks of the shared contract, the digest of a review's
-- context, the ids and the time of the database, and the version of the packaged policy.
pub record Outside : Type 0 where
  pub now : Millis
  pub fresh_id : Uuid
  pub step_id : ℕ → Uuid
  pub policy_version : String
  pub context_hash : Digest → String → String → Digest
  pub shared_snapshot : Revision → String → Result WorkflowError (Unit {0})
  pub is_safe_mdx : String → Bool

-- `reviewStages` of packages/domain/src/index.ts
pub record Stage : Type 0 where
  pub ordinal : ℕ
  pub role : String
  pub dependencies : List String

abbrev pub review_stages : List Stage
review_stages =
    record { ordinal = 1; role = "context-mapper"; dependencies = [] }
    ∷ record { ordinal = 2; role = "critical-review"; dependencies = "context-mapper" ∷ [] }
    ∷ record { ordinal = 3; role = "candidate-builder"; dependencies = "critical-review" ∷ [] }
    ∷ record { ordinal = 4; role = "candidate-audit"; dependencies = "candidate-builder" ∷ [] }
    ∷ []

unfoldable pub new_step : Outside → Stage → ReviewStep
new_step out stage = record {
  id = out.step_id stage.ordinal;
  ordinal = stage.ordinal;
  role_code = stage.role;
  dependencies = stage.dependencies;
  state = if stage.ordinal == 1 then StepState.ready else StepState.pending;
  output_hash = none;
  started_at = none;
  finished_at = none;
}

unfoldable pub new_job : Outside → Checkout → Revision → ReviewJob
unfolding new_step
new_job out checkout revision = record {
  id = out.fresh_id;
  situation_id = checkout.situation_id;
  input_revision_id = revision.id;
  input_bundle_hash = revision.bundle_hash;
  checkout_id = checkout.id;
  checkout_fence = checkout.fence;
  fence = 1;
  state = JobState.queued;
  context_hash = out.context_hash revision.bundle_hash revision.contract_version out.policy_version;
  contract_version = revision.contract_version;
  policy_version = out.policy_version;
  queued_at = out.now;
  started_at = none;
  finished_at = none;
  lane_owner = false;
  claim_token = none;
  lease_expires_at = none;
  retry_not_before = none;
  cancelled_at = none;
  cancelled_by_id = none;
  cancellation_reason = none;
  failure_code = none;
  failure_reason_code = none;
  failure_phase = none;
  failure_stage_ordinal = none;
  failure_stage_role = none;
  steps = map (new_step out) review_stages;
}

-- A review that the checkout has neither finished nor stopped.
unfoldable pub is_focused_on : Checkout → ReviewJob → Bool
is_focused_on checkout j =
    j.checkout_id == checkout.id
    && j.checkout_fence == checkout.fence
    && j.lane_owner
    && is_unresolved j.state

-- The arguments that every command of a checkout takes.
pub record Command : Type 0 where
  pub actor_id : Uuid
  pub checkout_id : Uuid
  pub fence : ℕ
  pub revision_id : Uuid
  pub bundle_hash : Digest

-- The writes of `queueReview`.
unfoldable pub add_review :
    Outside → Command → Db → Checkout → Revision → Result WorkflowError (ReviewJob × Db)
unfolding new_job
add_review out input db checkout revision = do
  let job = new_job out checkout revision
  let jobs' = db.jobs ++ job ∷ []
  require (one_active_review job.situation_id jobs') review_already_active
  ok (
    job,
    record db {
      jobs = jobs';
      audit =
          db.audit
          ++ record {
            actor_id = some input.actor_id;
            action = review_queued revision.id revision.bundle_hash (length job.steps);
            subject_id = job.id;
          }
            ∷ [];
    },
  )

-- The checks of the saved revision, and the writes after them.
unfoldable pub check_revision :
    Outside → Command → Db → Checkout → Revision → Result WorkflowError (ReviewJob × Db)
unfolding add_review
check_revision out input db checkout revision = do
  require (revision.id == input.revision_id && revision.bundle_hash == input.bundle_hash)
      stale_revision
  body ← or_throw (non_empty revision.body) body_not_saved
  require (is_v2 revision.schema_version) legacy_draft_requires_sync
  out.shared_snapshot revision body
  require (out.is_safe_mdx body) unsafe_managed_mdx
  add_review out input db checkout revision

unfoldable pub queue_review : Outside → Command → Db → Result WorkflowError (ReviewJob × Db)
unfolding is_focused_on check_revision
queue_review out input db = do
  checkout ←
      or_throw (find_held input.checkout_id input.actor_id input.fence db) checkout_not_active
  require (not (any (is_focused_on checkout) db.jobs)) review_focused_unresolved
  assert_no_active_publication checkout.situation_id db
  revision ← or_throw (latest_revision checkout.draft_id db.revisions) draft_not_saved
  check_revision out input db checkout revision

-- The arguments of a command on a review.
pub record ReviewCommand : Type 0 where
  pub actor_id : Uuid
  pub job_id : Uuid
  pub revision_id : Uuid
  pub bundle_hash : Digest

unfoldable pub stop_steps : Millis → List ReviewStep → List ReviewStep
stop_steps now =
    update_many (λ s. step_is_stoppable s.state)
      (λ s. record s { state = StepState.cancelled; finished_at = some now })

-- The columns that a stopped review has, whoever stops it.
unfoldable pub stop_job : Millis → Uuid → String → ReviewJob → ReviewJob
stop_job now actor_id reason j = record j {
  state = JobState.cancelled;
  fence = j.fence + 1;
  cancelled_at = some now;
  finished_at = some now;
  cancelled_by_id = some actor_id;
  cancellation_reason = some reason;
  lane_owner = false;
  claim_token = none;
  lease_expires_at = none;
  retry_not_before = none;
}

abbrev pub reason_or : Option String → String → String
reason_or none d = d
reason_or (some s) d = s

-- `reason` is the text of the command, cut to 500 characters.
unfoldable pub cancel_review :
    Millis → ReviewCommand → Option String → Db → Result WorkflowError (Unit {0} × Db)
unfolding stop_steps stop_job update_job
cancel_review now input reason db = do
  job ←
      or_throw (find_first (λ j. j.id == input.job_id && is_unresolved j.state) db.jobs)
        review_not_stoppable
  require (job.input_revision_id == input.revision_id && job.input_bundle_hash == input.bundle_hash)
      stale_review
  checkout ←
      or_throw (find_held job.checkout_id input.actor_id job.checkout_fence db)
        checkout_owner_required
  ok (
    tt,
    record db {
      jobs =
          update_job job.id
            (λ j.
              stop_job now input.actor_id (reason_or reason "Editor cancelled")
                (record j { steps = stop_steps now j.steps }))
            db.jobs;
      audit =
          db.audit
          ++ record {
            actor_id = some input.actor_id;
            action = review_cancelled (job.fence + 1) job.state;
            subject_id = job.id;
          }
            ∷ [];
    },
  )
