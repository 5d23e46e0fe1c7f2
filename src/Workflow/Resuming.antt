-- ===== src/Workflow/Resuming.antt =====
-- A review that is tried again is the next one that a worker takes.
use situation_studio.Prelude.{
  ◌≤◌, ◌≡◌, ◌∙◌, refl, sym, inl, inr, Bool, true, false, ◌&&◌, not, ◌==◌, Option, none, some, List,
  [], ◌∷◌, ◌++◌, Uuid, Millis, arith, is_none, ltb, if◌then◌else◌, Option-cases, Bool-cases,
  ==_self,
}
use mathlib.Core.Path.{subst}
use situation_studio.Prelude.Rows.{find_first, count, update_many, find_first_sound}
use situation_studio.Prelude.Members.{In, In-any, In-count, find_first-In, In-update_many}
use situation_studio.Prelude.Results.{Result, ok, err, Result-cases, Always}
use situation_studio.Store.{
  review_retried, Db, Checkout, ReviewJob, ReviewStep, Revision, StepState, is_failed,
  step_is_failed, step_is_succeeded,
}
use situation_studio.Store.Keys.{review_keys}
use situation_studio.Worker.Failure.{WorkerError, Timing, lease_duration_ms}
use situation_studio.Worker.Lane.{
  claim_next_review, claim_transaction, vacate, focus, is_stale, must_wait, take_over, grant,
  checkout_active, update_job,
}
use situation_studio.Worker.Lane.Invariant.{LaneInv}
use situation_studio.Worker.Lane.Claiming.{claim-LaneInv}
use situation_studio.Worker.Steps.{update_steps}
use situation_studio.Workflow.Failure.{WorkflowError}
use situation_studio.Workflow.Keeping.{Sound}
use situation_studio.Workflow.Queueing.{retry_review-LaneInv}
use situation_studio.Workflow.Guards.{
  find_held, is_held_by, assert_no_active_publication, non_empty,
}
use situation_studio.Workflow.Review.{Outside, ReviewCommand}
use situation_studio.Workflow.Retry.{
  retry_review, resume_review, resume_steps, requeue_retried, lane_is_busy,
}

module _ {A : Type 0} (p : A → Bool) where
  -- The only row that passes is the one that is found.
  only_found :
      (xs : List A) (x : A) → In x xs → p x ≡ true → count p xs ≤ 1 → find_first p xs ≡ some x
  unfolding find_first count
  only_found [] x m h c = absurd m
  only_found (y ∷ ys) x (inl e) h c = ground arith
  only_found (y ∷ ys) x (inr m) h c = ground (arith, only_found ys x m h, In-count p ys x m h)

module _ (p : ReviewJob → ReviewStep → Bool) (f : ReviewStep → ReviewStep) where
  In-update_steps :
      (jobs : List ReviewJob) (j : ReviewJob)
      → In j jobs
      → In (record j { steps = update_many (p j) f j.steps }) (update_steps p f jobs)
  unfolding update_steps
  In-update_steps [] j m = m
  In-update_steps (x ∷ xs) j (inl e) = inl (rw (e) refl)
  In-update_steps (x ∷ xs) j (inr m) = inr (In-update_steps xs j m)

-- The lane's owner is queued, may be tried now, and its checkout is held: a claim gives it.
module _ (timing : Timing) (token : Uuid) (db : Db) (lease : Millis)
    (valid : lease_duration_ms timing ≡ ok lease) (inv : LaneInv db.checkouts db.jobs)
    (k : ReviewJob) (m : In k db.jobs) (lane : k.lane_owner ≡ true)
    (live : is_stale db.checkouts k ≡ false) (now : must_wait timing.now k ≡ false) where
  kept : vacate db.checkouts db.jobs ≡ (some k, db.jobs)
  unfolding vacate
  kept =
      rw (only_found (λ (x : ReviewJob). x.lane_owner) db.jobs k m lane inv.single, vacate, live)
        refl

  computed : claim_transaction timing token db ≡ (
      if review_keys k.situation_id (grant timing lease token db k db.jobs).jobs
      then ok (some k.id, grant timing lease token db k db.jobs)
      else err WorkerError.unique_violation)
  unfolding claim_transaction focus take_over
  computed = rw (kept, now, valid) refl

  taken : (d : Db) × (claim_next_review timing token db ≡ ok (some k.id, d))
  unfolding claim_next_review
  taken =
      elim (Bool-cases (review_keys k.situation_id (grant timing lease token db k db.jobs).jobs)) [
        | inl e ↦ (grant timing lease token db k db.jobs, rw (computed, e) refl)
        | inr e ↦
            let (id, d, e1, e2, inv2, granted) = claim-LaneInv timing token db lease valid inv in
            absurd (no_value (id, d) (sym (rw (e) at computed) ∙ e1))
      ]
    where
      no_value :
          (v : Option Uuid × Db)
          → ◌≡◌ {A = Result WorkerError (Option Uuid × Db)}
              (err WorkerError.unique_violation)
              (ok v)
          → ⊥
      no_value v h = ground (arith, h)

module _ (timing : Timing) (token : Uuid) (lease : Millis)
    (valid : lease_duration_ms timing ≡ ok lease) (db : Db) (job : ReviewJob) (m : In job db.jobs)
    (live : checkout_active db.checkouts job ≡ true) where
  abbrev Next : Unit {0} × Db → Type 0
  Next (u, db') =
      LaneInv db'.checkouts db'.jobs
      → (d : Db) × (claim_next_review timing token db' ≡ ok (some job.id, d))

  -- The row that a retry leaves, whatever its steps.
  row-taken :
      (jobs : List ReviewJob) (steps : List ReviewStep) (db' : Db)
      → In (record job { steps = steps }) jobs
      → db'.checkouts ≡ db.checkouts
      → db'.jobs ≡ update_job job.id requeue_retried jobs
      → LaneInv db'.checkouts db'.jobs
      → (d : Db) × (claim_next_review timing token db' ≡ ok (some job.id, d))
  unfolding requeue_retried
  row-taken jobs steps db' i ec ej inv =
      taken timing token db' lease valid inv (requeue_retried (record job { steps = steps }))
        (rw (ej) (
          unfold update_job in
          In-update_many (λ x. x.id == job.id) requeue_retried jobs (record job { steps = steps }) i
            (==_self job.id)))
        (unfold requeue_retried in refl)
        (rw (ec) (
          unfold is_stale in
          unfold requeue_retried in unfold checkout_active in ground (arith, live)))
        (unfold must_wait in unfold requeue_retried in refl)

  resumed-Next : (input : ReviewCommand) → Always Next (resume_review input db job)
  unfolding resume_review
  resumed-Next input =
      elim (Option-cases (find_first (λ (s : ReviewStep). step_is_failed s.state) job.steps)) [
        | inl e ↦ rw (e) tt
        | inr (failed, e) ↦ rw (e) (elim (Bool-cases (lane_is_busy job db.jobs)) [
          | inl b ↦ rw (b) tt
          | inr b ↦
              rw (b)
                (elim (Bool-cases (
                  review_keys job.situation_id
                    (update_job job.id requeue_retried (resume_steps job failed db.jobs)))) [
                      | inr k ↦ rw (k) tt
                      | inl k ↦ rw (k) (left failed)
                    ])
        ])
      ]
    where
      left :
          (failed : ReviewStep)
          (inv : LaneInv db.checkouts
            (update_job job.id requeue_retried (resume_steps job failed db.jobs)))
          → (d : Db) × (claim_next_review timing token (record db {
            jobs = update_job job.id requeue_retried (resume_steps job failed db.jobs);
            audit =
                db.audit
                ++ record {
                  actor_id = some input.actor_id;
                  action =
                      review_retried failed.ordinal job.input_revision_id job.input_bundle_hash;
                  subject_id = job.id;
                }
                  ∷ [];
          })
              ≡ ok (some job.id, d))
      left failed inv =
          let p1 : ReviewJob → ReviewStep → Bool = λ _ s. s.id == failed.id in
          let f1 : ReviewStep → ReviewStep =
            λ s. record s { state = StepState.ready; started_at = none; finished_at = none } in
          let p2 : ReviewJob → ReviewStep → Bool = λ j s.
            j.id == job.id && ltb failed.ordinal s.ordinal && not (step_is_succeeded s.state) in
          let f2 : ReviewStep → ReviewStep =
            λ s. record s { state = StepState.pending; started_at = none; finished_at = none } in
          let once : ReviewJob = record job { steps = update_many (p1 job) f1 job.steps } in
          row-taken (resume_steps job failed db.jobs) (update_many (p2 once) f2 once.steps)
            (record db {
              jobs = update_job job.id requeue_retried (resume_steps job failed db.jobs);
              audit =
                  db.audit
                  ++ record {
                    actor_id = some input.actor_id;
                    action =
                        review_retried failed.ordinal job.input_revision_id job.input_bundle_hash;
                    subject_id = job.id;
                  }
                    ∷ [];
            })
            (unfold resume_steps in
              In-update_steps p2 f2 (update_steps p1 f1 db.jobs) once
                (In-update_steps p1 f1 db.jobs job m))
            refl refl inv

held-active :
    (db : Db) (job : ReviewJob) (actor_id : Uuid) (c : Checkout)
    → find_held job.checkout_id actor_id job.checkout_fence db ≡ some c
    → checkout_active db.checkouts job ≡ true
unfolding find_held is_held_by checkout_active
held-active db job actor_id c f =
    In-any (λ d. d.id == job.checkout_id && d.fence == job.checkout_fence && is_none d.released_at)
      db.checkouts c
      (find_first-In (is_held_by job.checkout_id actor_id job.checkout_fence) db.checkouts c f)
      (ground (
        arith,
        find_first_sound (is_held_by job.checkout_id actor_id job.checkout_fence) db.checkouts c f,
      ))

module _ (out : Outside) (input : ReviewCommand) (timing : Timing) (token : Uuid) (lease : Millis)
    (valid : lease_duration_ms timing ≡ ok lease) (db : Db)
    (inv : LaneInv db.checkouts db.jobs) where
  abbrev TakenNext : Unit {0} × Db → Type 0
  TakenNext (u, db') = (d : Db) × (claim_next_review timing token db' ≡ ok (some input.job_id, d))

  abbrev Follows : Uuid → Unit {0} × Db → Type 0
  Follows id (u, db') =
      LaneInv db'.checkouts db'.jobs
      → (d : Db) × (claim_next_review timing token db' ≡ ok (some id, d))

  followed : Always (Follows input.job_id) (retry_review out input db)
  unfolding retry_review
  followed =
      elim (Option-cases
        (find_first (λ (j : ReviewJob). j.id == input.job_id && is_failed j.state) db.jobs)) [
          | inl e ↦ rw (e) tt
          | inr (job, e) ↦
              rw (e)
                (elim (Bool-cases (
                  job.input_revision_id == input.revision_id
                  && job.input_bundle_hash == input.bundle_hash)) [
                    | inr b ↦ rw (b) tt
                    | inl b ↦
                        rw (b)
                          (elim (Option-cases (
                            find_first (λ (r : Revision). r.id == job.input_revision_id)
                              db.revisions)) [
                                | inl r ↦ rw (r) tt
                                | inr (r, q) ↦ rw (q) (elim (Option-cases (non_empty r.body)) [
                                  | inl t ↦ rw (t) tt
                                  | inr (body, t) ↦
                                      rw (t) (elim (Bool-cases (out.is_safe_mdx body)) [
                                        | inr z ↦ rw (z) tt
                                        | inl z ↦
                                            rw (z)
                                              (elim (Option-cases (
                                                find_held job.checkout_id input.actor_id
                                                  job.checkout_fence db)) [
                                                    | inl f ↦ rw (f) tt
                                                    | inr (c, f) ↦
                                                        rw (f)
                                                          (elim (Result-cases (
                                                            assert_no_active_publication
                                                            c.situation_id db)) [
                                                              | inr (x, p) ↦ rw (p) tt
                                                              | inl (u, p) ↦
                                                                rw (p) (resumed job e c f)
                                                            ])
                                                  ])
                                      ])
                                ])
                              ])
                  ])
        ]
    where
      resumed :
          (job : ReviewJob)
          → find_first (λ (j : ReviewJob). j.id == input.job_id && is_failed j.state) db.jobs
            ≡ some job
          → (c : Checkout) → find_held job.checkout_id input.actor_id job.checkout_fence db ≡ some c
          → Always (Follows input.job_id) (resume_review input db job)
      resumed job e c f =
          let named : job.id ≡ input.job_id = ground (
            arith,
            find_first_sound (λ (j : ReviewJob). j.id == input.job_id && is_failed j.state) db.jobs
                job e,
          ) in
          subst (λ i. Always (Follows i) (resume_review input db job)) named
            (resumed-Next timing token lease valid db job
              (find_first-In (λ (j : ReviewJob). j.id == input.job_id && is_failed j.state) db.jobs
                job e)
              (held-active db job input.actor_id c f) input)

  both :
      (r : Result WorkflowError (Unit {0} × Db))
      → Always Sound r
      → Always (Follows input.job_id) r
      → Always TakenNext r
  both (ok (u, db')) i h = h i
  both (err e) i h = tt

  -- From a database with a sound lane, and with a valid lease duration: once a retry of a review has
  -- gone through, the next claim, whenever a worker makes it, succeeds and gives that review.
  pub retried_is_next :
      Always
        (λ (r : Unit {0} × Db).
          (d : Db) × (claim_next_review timing token r.1 ≡ ok (some input.job_id, d)))
        (retry_review out input db)
  retried_is_next =
      both (retry_review out input db) (retry_review-LaneInv out db inv input) followed
