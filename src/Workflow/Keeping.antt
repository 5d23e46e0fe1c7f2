-- ===== src/Workflow/Keeping.antt =====
-- The commands keep the invariant of the lane.
use situation_studio.Prelude.{
  refl, inl, inr, Bool, ◌&&◌, Option, arith, Uuid, Millis, String, ◌==◌, Option-cases, Bool-cases,
}
use situation_studio.Prelude.Rows.{find_first}
use situation_studio.Prelude.Results.{Always}
use situation_studio.Store.{is_unresolved, Db, ReviewJob}
use situation_studio.Worker.Lane.Invariant.{LaneInv}
use situation_studio.Worker.Keeping.{Harmless, update_job-LaneInv}
use situation_studio.Workflow.Guards.{find_held}
use situation_studio.Workflow.Review.{ReviewCommand, cancel_review, stop_job, stop_steps, reason_or}

-- What a command gives, if it does not throw, has a sound lane.
abbrev pub Sound {ℓ} : {A : Type ℓ} → A × Db → Type 0
Sound (a, db) = LaneInv db.checkouts db.jobs

pub stop_job-Harmless :
    (p : ReviewJob → Bool) (now : Millis) (actor_id : Uuid) (reason : String)
    → Harmless p (λ j. stop_job now actor_id reason (record j { steps = stop_steps now j.steps }))
unfolding stop_job
stop_job-Harmless p now actor_id reason = record {
  ids = λ x. refl;
  situations = λ x. refl;
  checkouts = λ x. refl;
  fences = λ x. refl;
  lanes = λ x. ground arith;
  keeps = λ x. ground arith;
  actives = λ x. ground arith;
}

pub cancel_review-LaneInv :
    (now : Millis) (input : ReviewCommand) (reason : Option String) (db : Db)
    → LaneInv db.checkouts db.jobs
    → Always Sound (cancel_review now input reason db)
unfolding cancel_review
cancel_review-LaneInv now input reason db inv =
    elim (Option-cases
      (find_first (λ (j : ReviewJob). j.id == input.job_id && is_unresolved j.state) db.jobs)) [
        | inl e ↦ rw (e) tt
        | inr (job, e) ↦
            rw (e)
              (elim (Bool-cases (
                job.input_revision_id == input.revision_id
                && job.input_bundle_hash == input.bundle_hash)) [
                  | inr b ↦ rw (b) tt
                  | inl b ↦
                      rw (b)
                        (elim (Option-cases
                          (find_held job.checkout_id input.actor_id job.checkout_fence db)) [
                            | inl f ↦ rw (f) tt
                            | inr (checkout, f) ↦ rw (f) (
                                update_job-LaneInv db.checkouts job.id
                                  (λ j.
                                    stop_job now input.actor_id
                                      (reason_or reason "Editor cancelled")
                                      (record j { steps = stop_steps now j.steps }))
                                  (stop_job-Harmless (λ x. x.id == job.id) now input.actor_id
                                    (reason_or reason "Editor cancelled"))
                                  db.jobs inv)
                          ])
                ])
      ]
