-- ===== src/Tests/Reports.antt =====
-- Reports of a worker, and a cancelled review.
use situation_studio.Prelude.{
  is_none, ◌≡◌, refl, true, false, ◌&&◌, not, none, some, [], ◌∷◌, any, arith, ◌==◌,
}
use situation_studio.Prelude.Rows.{count, find_first, update_many, select}
use situation_studio.Prelude.Results.{ok, Always}
use situation_studio.Store.{
  JobState, StepState, is_unresolved, Db, ReviewStep, is_failed, run_stage, Draft, DraftState,
}
use situation_studio.Store.Keys.{one_active_review, review_keys}
use situation_studio.Worker.Failure.{lease_duration_ms}
use situation_studio.Worker.Lane.{
  claim_next_review, claim_transaction, vacate, focus, next_queued, take_over, grant,
}
use situation_studio.Worker.Steps.{is_held, all_steps}
use situation_studio.Worker.Failing.{record_failure}
use situation_studio.Worker.Application.{record_application_failure}
use situation_studio.Worker.Outcomes.{failure_surrenders, attempts_bounded}
use situation_studio.Workflow.Guards.{
  find_held, is_held_by, assert_no_active_publication, assert_no_publication_recovery,
  latest_revision,
}
use situation_studio.Workflow.Review.{
  queue_review, check_revision, add_review, new_job, cancel_review,
}
use situation_studio.Workflow.Revoking.{force_revokes, cancel_revokes}
use situation_studio.Workflow.Checkin.{TextOperations, force_check_in_situation, draft_hash}
use situation_studio.Worker.Lane.Invariant.{LaneInv, is_misplaced}
use situation_studio.Workflow.Retry.{retry_review}
use situation_studio.Workflow.Resuming.{retried_is_next}
use situation_studio.Samples.{
  first_step, outside, queued_job, claimed_db, held_checkout, saved_db, timing, no_match, authority,
  stage, capacity_failure, cancel_command, is_ok,
}

held : any (is_held authority) claimed_db.jobs ≡ true
unfolding queue_review check_revision add_review new_job find_held is_held_by find_first
    assert_no_active_publication assert_no_publication_recovery latest_revision one_active_review
    count claim_next_review claim_transaction vacate focus next_queued take_over grant review_keys
    update_many select lease_duration_ms is_held
held = refl

found : find_first (λ (s : ReviewStep). s.id == 201) (all_steps claimed_db.jobs) ≡ some first_step
unfolding queue_review check_revision add_review new_job find_held is_held_by find_first
    assert_no_active_publication assert_no_publication_recovery latest_revision one_active_review
    count claim_next_review claim_transaction vacate focus next_queued take_over grant review_keys
    update_many select lease_duration_ms all_steps
found = refl

-- The stage that failed has started.
abbrev working_db : Db
working_db = record claimed_db {
  runs =
      record {
        id = 300;
        step_id = 201;
        attempt = 3;
        requested_provider = "codex";
        requested_model = "model";
        output_hash = none;
        failure_class = none;
        retryable = none;
        started_at = 2000;
        finished_at = none;
      }
      ∷ [];
}

attempts_bounded_example :
    (db' : Db) × (record_failure no_match timing stage 3 run_stage capacity_failure working_db
      ≡ ok db')
    × (any (λ j. j.id == 100 && not (is_failed j.state && not j.lane_owner)) db'.jobs ≡ false)
attempts_bounded_example =
    attempts_bounded no_match timing stage 3 run_stage working_db capacity_failure first_step
      (omega arith) held found refl refl

failure_surrenders_example :
    Always
      (λ (db' : Db). any (is_held authority) db'.jobs ≡ false)
      (record_failure no_match timing stage 1 run_stage capacity_failure working_db)
    × Always
        (λ (db' : Db). any (is_held authority) db'.jobs ≡ false)
        (record_application_failure no_match timing authority 201 run_stage capacity_failure
          working_db)
failure_surrenders_example =
    failure_surrenders no_match timing stage 1 run_stage working_db capacity_failure

cancel_revokes_example :
    Always
      (λ (r : Unit {0} × Db). any (is_held authority) r.1.jobs ≡ false)
      (cancel_review 3000 cancel_command none claimed_db)
cancel_revokes_example = cancel_revokes 3000 cancel_command none claimed_db authority refl

abbrev text : TextOperations
text = record { trim = λ s. s; length = λ s. 12 }

abbrev kept_draft : Draft
kept_draft = record {
  id = 3;
  situation_id = 1;
  lineage = 1;
  state = DraftState.active;
  base_release_id = none;
  base_bundle_hash = none;
  rebase_release_id = none;
  conflicted_at = none;
  archived_at = none;
  current_revision_number = 1;
  current_bundle_hash = some 7;
}

-- The review runs under the checkout of this draft.
abbrev drafted_db : Db
drafted_db = record claimed_db { drafts = kept_draft ∷ [] }

force_revokes_example :
    Always
      (λ (r : Unit {0} × Db).
        (any (λ x. x.id == 10 && is_none x.released_at) r.1.checkouts ≡ false)
        × (any (λ j. j.checkout_id == 10 && is_unresolved j.state) r.1.jobs ≡ false))
      (force_check_in_situation text 4000 99 1 "On vacation." drafted_db)
unfolding queue_review check_revision add_review new_job find_held is_held_by find_first
    assert_no_active_publication assert_no_publication_recovery latest_revision one_active_review
    count claim_next_review claim_transaction vacate focus next_queued take_over grant review_keys
    update_many select lease_duration_ms
force_revokes_example = force_revokes text 4000 99 1 "On vacation." drafted_db held_checkout refl

-- The call of the witness succeeds.
force_runs : is_ok (force_check_in_situation text 4000 99 1 "On vacation." drafted_db) ≡ true
unfolding queue_review check_revision add_review new_job find_held is_held_by find_first
    assert_no_active_publication assert_no_publication_recovery latest_revision one_active_review
    count claim_next_review claim_transaction vacate focus next_queued take_over grant review_keys
    update_many select lease_duration_ms force_check_in_situation draft_hash
force_runs = refl

-- The review failed in its first stage, and gave up the lane.
abbrev failed_db : Db
failed_db = record saved_db {
  jobs =
      record queued_job {
        state = JobState.failed;
        steps = record first_step { state = StepState.failed } ∷ [];
      }
      ∷ [];
}

failed_inv : LaneInv failed_db.checkouts failed_db.jobs
unfolding new_job
failed_inv = record {
  distinct = λ k. unfold count in ground arith;
  single = unfold count in omega arith;
  owned = refl;
  live = refl;
  one_review = λ k. unfold count in omega arith;
  rooted = unfold is_misplaced in refl;
  checkout_ids = λ k. unfold count in ground arith;
}

retried_is_next_example :
    Always
      (λ (r : Unit {0} × Db). (d : Db) × (claim_next_review timing 56 r.1 ≡ ok (some 100, d)))
      (retry_review outside cancel_command failed_db)
retried_is_next_example =
    retried_is_next outside cancel_command timing 56 120000 valid_lease failed_db failed_inv
  where
    valid_lease : lease_duration_ms timing ≡ ok 120000
    valid_lease = unfold lease_duration_ms in refl
