-- ===== src/Worker/Repair.antt =====
-- `scheduleCandidateRepair`: an audit that asks for a revision sends the candidate back to its
-- builder, once.
use situation_studio.Prelude.{
  ℕ, Bool, true, false, ◌&&◌, none, List, [], ◌∷◌, ◌++◌, Uuid, ltb, ◌==◌, if◌then◌else◌, any,
  is_some,
}
use situation_studio.Prelude.Rows.{count}
use situation_studio.Store.{
  Db, ReviewJob, ReviewStep, AgentRun, StepState, review_candidate_repair_scheduled,
}
use situation_studio.Worker.Failure.{WorkerError, row_missing, review_max_repair_attempts}
use situation_studio.Prelude.Results.{Result, ok, ◌>>◌, require}
use situation_studio.Worker.Steps.{Authority, is_held, update_steps, all_steps}

-- An audit that has run to its end.
unfoldable pub completed_audits : Uuid → List AgentRun → ℕ
completed_audits step_id = count (λ r. r.step_id == step_id && is_some r.output_hash)

unfoldable pub reopen_step : StepState → Uuid → List ReviewJob → List ReviewJob
unfolding update_steps
reopen_step state step_id =
    update_steps (λ _ s. s.id == step_id)
      (λ s. record s { state = state; output_hash = none; started_at = none; finished_at = none })

abbrev pub has_step : Uuid → Db → Bool
has_step id db = any (λ (s : ReviewStep). s.id == id) (all_steps db.jobs)

-- The writes of `scheduleCandidateRepair` for a job that was found.
unfoldable pub write_repair : Authority → Uuid → Uuid → Db → Result WorkerError (Bool × Db)
unfolding completed_audits reopen_step all_steps
write_repair a builder_step_id audit_step_id db =
    if ltb review_max_repair_attempts (completed_audits audit_step_id db.runs)
    then ok (false, db)
    else require (has_step builder_step_id db && has_step audit_step_id db) row_missing
      >> ok (
        true,
        record db {
          jobs =
              reopen_step StepState.pending audit_step_id
                (reopen_step StepState.ready builder_step_id db.jobs);
          audit =
              db.audit
              ++ record {
                actor_id = none;
                action =
                    review_candidate_repair_scheduled review_max_repair_attempts
                      (completed_audits audit_step_id db.runs);
                subject_id = a.job_id;
              }
                ∷ [];
        },
      )

-- `scheduleCandidateRepair` where its transaction runs alone: whether a repair was scheduled.
unfoldable pub schedule_candidate_repair :
    Authority → Uuid → Uuid → Db → Result WorkerError (Bool × Db)
unfolding is_held write_repair
schedule_candidate_repair a builder_step_id audit_step_id db =
    if any (is_held a) db.jobs
    then write_repair a builder_step_id audit_step_id db
    else ok (false, db)
