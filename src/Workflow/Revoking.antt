-- ===== src/Workflow/Revoking.antt =====
-- A review that an editor or an administrator stops is out of its worker's hands.
use situation_studio.Prelude.{
  ◌≡◌, inl, inr, true, false, ◌&&◌, is_none, ltb, Digest, Uuid, some, Option, arith, any, Millis,
  String, ◌==◌, Option-cases, Bool-cases,
}
use situation_studio.Prelude.Rows.{find_first, update_many, find_first_sound}
use situation_studio.Prelude.Writes.{any-update_many_all}
use situation_studio.Prelude.Results.{Always, Result-cases}
use situation_studio.Store.{Checkout, ReleaseReason, Db, ReviewJob, is_unresolved}
use situation_studio.Worker.Lane.{update_job}
use situation_studio.Worker.Steps.{Authority, is_held}
use situation_studio.Workflow.Guards.{find_held, assert_no_active_publication}
use situation_studio.Workflow.Checkin.{
  TextOperations, force_check_in_situation, stop_reviews, release, draft_hash,
}
use situation_studio.Workflow.Review.{ReviewCommand, cancel_review, stop_job, stop_steps, reason_or}

module _ (now : Millis) (input : ReviewCommand) (reason : Option String) (db : Db) (a : Authority)
    (same : a.job_id ≡ input.job_id) where
  -- Once the cancellation of a review has committed, no authority over that review holds: whichever
  -- fence and claim token a worker has for it.
  pub cancel_revokes :
      Always
        (λ (r : Unit {0} × Db). any (is_held a) r.1.jobs ≡ false)
        (cancel_review now input reason db)
  unfolding cancel_review update_job stop_job is_held
  cancel_revokes =
      elim (Option-cases
        (find_first (λ (j : ReviewJob). j.id == input.job_id && is_unresolved j.state) db.jobs)) [
          | inl e ↦ rw (e) tt
          | inr (job, e) ↦
              rw (e)
                (elim (Bool-cases (
                  job.input_revision_id == input.revision_id
                  && job.input_bundle_hash == input.bundle_hash)) [
                    | inr b ↦ rw (b) tt
                    | inl b ↦
                        rw (b)
                          (elim (Option-cases
                            (find_held job.checkout_id input.actor_id job.checkout_fence db)) [
                              | inl f ↦ rw (f) tt
                              | inr (checkout, f) ↦ rw (f) (
                                  stopped job (
                                    find_first_sound
                                      (λ (j : ReviewJob).
                                        j.id == input.job_id && is_unresolved j.state)
                                      db.jobs job e))
                            ])
                  ])
        ]
    where
      stopped :
          (job : ReviewJob)
          → (job.id == input.job_id && is_unresolved job.state) ≡ true
          → any (is_held a) (
              update_many
                (λ x. x.id == job.id)
                (λ j.
                  stop_job now input.actor_id
                    (reason_or reason "Editor cancelled")
                    (record j { steps = stop_steps now j.steps }))
                db.jobs)
            ≡ false
      stopped job h =
          any-update_many_all (is_held a) (λ x. x.id == job.id)
            (λ j.
              stop_job now input.actor_id (reason_or reason "Editor cancelled")
                (record j { steps = stop_steps now j.steps }))
            (λ x e. ground arith) (λ x e. ground (arith, same)) db.jobs

module _ (text : TextOperations) (now : Millis) (admin_id situation_id : Uuid) (reason : String)
    (db : Db) (c : Checkout)
    (found : find_first
        (λ (x : Checkout). x.situation_id == situation_id && is_none x.released_at)
        db.checkouts
      ≡ some c) where
  -- A forced check-in that goes through releases the open checkout of the situation, and leaves no
  -- queued, running or failed review under that checkout.
  pub force_revokes :
      Always
        (λ (r : Unit {0} × Db).
          (any (λ x. x.id == c.id && is_none x.released_at) r.1.checkouts ≡ false)
          × (any (λ j. j.checkout_id == c.id && is_unresolved j.state) r.1.jobs ≡ false))
        (force_check_in_situation text now admin_id situation_id reason db)
  unfolding force_check_in_situation
  force_revokes = elim (Bool-cases (ltb (text.length (text.trim reason)) 3)) [
    | inl b ↦ rw (b) tt
    | inr b ↦
        rw (b, found)
          (elim (Result-cases (draft_hash c db)) [
            | inr (x, h) ↦ rw (h) tt
            | inl (hash, h) ↦
                rw (h) (elim (Result-cases (assert_no_active_publication c.situation_id db)) [
                  | inr (x, p) ↦ rw (p) tt
                  | inl (u, p) ↦ rw (p) (closed hash, stopped)
                ])
          ])
  ]
    where
      closed :
          (hash : Option Digest)
          → any
              (λ x. x.id == c.id && is_none x.released_at)
              (release c.id now ReleaseReason.forced_check_in
                (some admin_id)
                (some (text.trim reason))
                hash
                db.checkouts)
            ≡ false
      closed hash =
          unfold release in
          any-update_many_all (λ x. x.id == c.id && is_none x.released_at) (λ x. x.id == c.id)
            (λ x. record x {
              released_at = some now;
              release_reason = some ReleaseReason.forced_check_in;
              forced_by_id = some admin_id;
              force_reason = some (text.trim reason);
              resulting_draft_hash = hash;
            })
            (λ x h. ground arith) (λ x h. ground arith) db.checkouts

      stopped :
          any
            (λ j. j.checkout_id == c.id && is_unresolved j.state)
            (stop_reviews c.id now admin_id db.jobs)
          ≡ false
      stopped =
          unfold stop_reviews in
          unfold stop_job in
          any-update_many_all (λ j. j.checkout_id == c.id && is_unresolved j.state)
            (λ j. j.checkout_id == c.id && is_unresolved j.state)
            (λ j.
              stop_job now admin_id "Administrative force check-in"
                (record j { steps = stop_steps now j.steps }))
            (λ x h. ground arith) (λ x h. h) db.jobs
