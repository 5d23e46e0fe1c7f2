-- ===== src/Tests/Stages.antt =====
-- A stage that starts and a review that completes, on the samples.
use situation_studio.Prelude.{
  [], ◌∷◌, ◌≡◌, ◌≤◌, List, refl, true, false, ◌&&◌, not, some, any, arith, ◌==◌,
}
use situation_studio.Prelude.Rows.{count, find_first, update_many, select}
use situation_studio.Prelude.Results.{ok}
use situation_studio.Store.{Db, ReviewStep, StepState}
use situation_studio.Store.Keys.{one_active_review, review_keys}
use situation_studio.Worker.Failure.{lease_duration_ms}
use situation_studio.Worker.Lane.{
  claim_next_review, claim_transaction, vacate, focus, next_queued, take_over, grant,
}
use situation_studio.Worker.Steps.{is_held, due_steps, succeeded_roles, is_due}
use situation_studio.Worker.Running.{Start, complete_review}
use situation_studio.Worker.Concluding.{completed_once, concluded}
use situation_studio.Workflow.Guards.{
  find_held, is_held_by, assert_no_active_publication, assert_no_publication_recovery,
  latest_revision,
}
use situation_studio.Workflow.Review.{new_step, queue_review, check_revision, add_review, new_job}
use situation_studio.Samples.{
  outside, first_step, authority, second_start, saved_revision, claimed_db,
}

abbrev another_start : Start
another_start = record second_start { run_id = 302; started_at = 2200 }

held : any (is_held authority) claimed_db.jobs ≡ true
unfolding queue_review check_revision add_review new_job find_held is_held_by find_first
    assert_no_active_publication assert_no_publication_recovery latest_revision one_active_review
    count claim_next_review claim_transaction vacate focus next_queued take_over grant review_keys
    update_many select lease_duration_ms is_held
held = refl

reviewed : latest_revision 3 claimed_db.revisions ≡ some saved_revision
unfolding queue_review check_revision add_review new_job find_held is_held_by find_first
    assert_no_active_publication assert_no_publication_recovery latest_revision one_active_review
    count claim_next_review claim_transaction vacate focus next_queued take_over grant review_keys
    update_many select lease_duration_ms
reviewed = refl

unproposed : count (λ p. p.job_id == 100) claimed_db.proposals ≤ 1
unfolding queue_review check_revision add_review new_job find_held is_held_by find_first
    assert_no_active_publication assert_no_publication_recovery latest_revision one_active_review
    count claim_next_review claim_transaction vacate focus next_queued take_over grant review_keys
    update_many select lease_duration_ms
unproposed = omega arith

completed_once_example :
    (db' : Db) × (complete_review 2600 400 authority saved_revision claimed_db ≡ ok db')
    × (any (λ j. j.id == 100 && not (concluded j.state && not j.lane_owner)) db'.jobs ≡ false)
    × (any (is_held authority) db'.jobs ≡ false)
    × (count (λ p. p.job_id == 100) db'.proposals ≡ 1)
completed_once_example =
    completed_once 2600 400 authority saved_revision saved_revision claimed_db held reviewed
      unproposed

-- The first stage has succeeded; the second depends on it, and the third on the second.
abbrev steps_after_first : List ReviewStep
steps_after_first =
    record first_step { state = StepState.succeeded; output_hash = some 9 }
    ∷ new_step outside
        (record { ordinal = 2; role = "critical-review"; dependencies = "context-mapper" ∷ [] })
    ∷ new_step outside
        (record { ordinal = 3; role = "candidate-builder"; dependencies = "critical-review" ∷ [] })
    ∷ []

readies_second : due_steps steps_after_first ≡ 202 ∷ []
unfolding due_steps succeeded_roles is_due select new_step
readies_second = refl
