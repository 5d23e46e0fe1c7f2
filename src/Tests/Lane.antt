-- ===== src/Tests/Lane.antt =====
-- Runs of the model on the samples.
use situation_studio.Prelude.{
  ◌≡◌, ◌≤◌, refl, true, false, Option, none, some, Uuid, any, arith, ◌==◌, ◌&&◌, not,
}
use situation_studio.Prelude.Rows.{count, find_first, update_many, select}
use situation_studio.Prelude.Results.{ok}
use situation_studio.Store.{FailureClass, run_stage, is_running, is_active, Db, ReviewJob, Checkout}
use situation_studio.Store.Keys.{one_active_review, review_keys}
use situation_studio.Worker.Failure.{lease_duration_ms, Timing, AdapterFailure}
use situation_studio.Worker.Lane.{
  claim_next_review, claim_transaction, vacate, focus, next_queued, checkout_active, take_over,
  grant, start_claim, is_before,
}
use situation_studio.Worker.Lane.Invariant.{LaneInv, has_lane}
use situation_studio.Worker.Lane.Claiming.{claim-LaneInv, Granted}
use situation_studio.Worker.Lane.Exclusion.{claimed_alone}
use situation_studio.Worker.Lane.Claims.{claim_fifo, may_start}
use situation_studio.Worker.Steps.{Authority, Stage}
use situation_studio.Worker.Running.{write_start, write_completion}
use situation_studio.Prelude.Members.{In}
use situation_studio.Workflow.Guards.{
  find_held, is_held_by, assert_no_active_publication, assert_no_publication_recovery,
  latest_revision,
}
use situation_studio.Workflow.Review.{
  cancel_review, queue_review, check_revision, add_review, new_job,
}
use situation_studio.System.{
  Run, stay, then, queued, claimed, started, failed, cancelled, completed,
}
use situation_studio.Worker.Failing.{settle_failure}
use situation_studio.System.Invariant.{reachable_lane, no_jobs-LaneInv, Run-LaneInv}
use situation_studio.Samples.{
  second_start, first_step, value_or, stage, cancel_command, saved_revision, queued_job, queued_db,
  claimed_db, saved_db, saved_revision, outside, queue_command, timing, no_match,
}

queues : queue_review outside queue_command saved_db ≡ ok (queued_job, queued_db)
unfolding queue_review check_revision add_review new_job find_held is_held_by find_first
    assert_no_active_publication assert_no_publication_recovery latest_revision one_active_review
    count
queues = refl

abbrev claimed_job : ReviewJob
claimed_job = start_claim 2000 120000 55 (record queued_job { lane_owner = true })

claims : claim_next_review timing 55 queued_db ≡ ok (some 100, claimed_db)
unfolding queue_review check_revision add_review new_job find_held is_held_by find_first
    assert_no_active_publication assert_no_publication_recovery latest_revision one_active_review
    count claim_next_review claim_transaction vacate focus next_queued take_over grant review_keys
    update_many select lease_duration_ms
claims = refl

one_checkout : (id : Uuid) → count (λ (c : Checkout). c.id == id) saved_db.checkouts ≤ 1
unfolding count
one_checkout id = ground arith

valid_lease : lease_duration_ms timing ≡ ok 120000
unfolding lease_duration_ms
valid_lease = refl

-- Its first stage starts, fails and is queued again, and its review is cancelled; a completion whose check
-- was made before that still writes the job.
abbrev started_db : Db
started_db = (write_start second_start claimed_db).1

abbrev capacity : AdapterFailure
capacity = record { failure_class = FailureClass.capacity; message = "busy"; retryable = true }

abbrev requeued_db : Db
requeued_db =
    settle_failure no_match timing stage 1 run_stage capacity (some 3000) first_step started_db

abbrev cancelled_db : Db
cancelled_db = (value_or (tt, requeued_db) (cancel_review 3100 cancel_command none requeued_db)).1

abbrev completed_db : Db
completed_db = value_or cancelled_db (write_completion 3200 400 100 saved_revision cancelled_db)

requeue_keys : (k : Uuid) → one_active_review k requeued_db.jobs ≡ true
unfolding queue_review check_revision add_review new_job find_held is_held_by find_first
    assert_no_active_publication assert_no_publication_recovery latest_revision one_active_review
    count claim_next_review claim_transaction vacate focus next_queued take_over grant review_keys
    update_many select lease_duration_ms settle_failure write_start
requeue_keys k = ground arith

cancels : cancel_review 3100 cancel_command none requeued_db ≡ ok (tt, cancelled_db)
unfolding queue_review check_revision add_review new_job find_held is_held_by find_first
    assert_no_active_publication assert_no_publication_recovery latest_revision one_active_review
    count claim_next_review claim_transaction vacate focus next_queued take_over grant review_keys
    update_many select lease_duration_ms settle_failure write_start cancel_review
cancels = refl

completes : write_completion 3200 400 100 saved_revision cancelled_db ≡ ok completed_db
unfolding queue_review check_revision add_review new_job find_held is_held_by find_first
    assert_no_active_publication assert_no_publication_recovery latest_revision one_active_review
    count claim_next_review claim_transaction vacate focus next_queued take_over grant review_keys
    update_many select lease_duration_ms settle_failure write_start cancel_review write_completion
completes = refl

run : Run no_match saved_db completed_db
run = then (queued outside queue_command queued_job refl queues) (
    then (claimed timing 55 120000 (some 100) valid_lease claims) (
      then (started second_start) (
        then (failed timing stage 1 run_stage capacity (some 3000) first_step requeue_keys) (
          then (cancelled 3100 cancel_command none cancels)
            (then (completed 3200 400 100 saved_revision completes) stay)))))

reachable_lane_example :
    (count (λ (j : ReviewJob). j.lane_owner) completed_db.jobs ≤ 1)
    × (count (λ (j : ReviewJob). is_running j.state) completed_db.jobs ≤ 1)
    × ((id : Uuid)
        → count (λ (j : ReviewJob). is_active j.state && j.situation_id == id) completed_db.jobs
          ≤ 1)
    × (any (λ j. is_running j.state && not j.lane_owner) completed_db.jobs ≡ false)
    × (any
          (λ j. is_running j.state && not (checkout_active completed_db.checkouts j))
          completed_db.jobs
        ≡ false)
reachable_lane_example = reachable_lane no_match saved_db completed_db refl one_checkout run

none_has : any has_lane queued_db.jobs ≡ false
unfolding queue_review check_revision add_review new_job find_held is_held_by find_first
    assert_no_active_publication assert_no_publication_recovery latest_revision one_active_review
    count
none_has = refl

queued_inv : LaneInv queued_db.checkouts queued_db.jobs
queued_inv =
    Run-LaneInv no_match (then (queued outside queue_command queued_job refl queues) stay)
      (no_jobs-LaneInv saved_db.checkouts one_checkout)

claim-LaneInv_example :
    (id : Option Uuid) × (db' : Db) × (claim_transaction timing 55 queued_db ≡ ok (id, db'))
    × (claim_next_review timing 55 queued_db ≡ ok (id, db'))
    × LaneInv db'.checkouts db'.jobs
    × ((i : Uuid) → id ≡ some i → Granted timing 55 120000 i db')
claim-LaneInv_example = claim-LaneInv timing 55 queued_db 120000 valid_lease queued_inv

-- Two minutes later, at the end of the lease.
abbrev later_timing : Timing
later_timing = record timing { now = 122000 }

claimed_here : claim_next_review timing 55 queued_db ≡ ok (some 100, claimed_db)
unfolding queue_review check_revision add_review new_job find_held is_held_by find_first
    assert_no_active_publication assert_no_publication_recovery latest_revision one_active_review
    count claim_next_review claim_transaction vacate focus next_queued take_over grant review_keys
    update_many select lease_duration_ms
claimed_here = refl

abbrev old_authority : Authority
old_authority = record { job_id = 100; fence = 1; claim_token = 54 }

abbrev old_stage : Stage
old_stage = record {
  authority = old_authority;
  step_id = 201;
  run_id = 300;
  metadata_is_valid = true;
}

claimed_alone_example : claim_next_review later_timing 56 claimed_db ≡ ok (none, claimed_db)
claimed_alone_example =
    claimed_alone timing 55 120000 queued_db claimed_db 100 later_timing 56 valid_lease queued_inv
      claimed_here (omega arith)

claim_fifo_example :
    (j : ReviewJob) × In j queued_db.jobs
    × (j.id ≡ 100)
    × (may_start queued_db.checkouts j ≡ true)
    × ((k : ReviewJob)
        → In k queued_db.jobs
        → may_start queued_db.checkouts k ≡ true
        → is_before k j ≡ false)
claim_fifo_example = claim_fifo timing 55 100 queued_db claimed_db none_has claims
