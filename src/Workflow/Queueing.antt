-- ===== src/Workflow/Queueing.antt =====
-- A review is queued or queued again: the unique indexes keep the lane to one job.
use situation_studio.Prelude.{
  ◌∙◌, ◌≤◌, ◌≡◌, refl, inl, inr, Bool, true, false, ◌&&◌, not, none, List, [], ◌∷◌, ◌++◌, arith,
  any, Uuid, ◌==◌, ==_self, ==_iff, ltb, Option-cases, Bool-cases,
}
use situation_studio.Prelude.Rows.{count, find_first, count-zero, count-update_many-le}
use situation_studio.Prelude.Writes.{
  count-snoc, any-snoc, any-update_many_of, any-update_many, count-update_many-le_of,
}
use situation_studio.Prelude.Members.{In, find_first-In, unique_row, update_many_restrict}
use situation_studio.Prelude.Results.{Always, Result-cases}
use situation_studio.Store.{
  Db, ReviewJob, ReviewStep, StepState, Checkout, Revision, is_running, is_active, is_failed,
  step_is_failed, step_is_succeeded, is_v2,
}
use situation_studio.Store.Keys.{one_active_review, one_lane_owner, review_keys}
use situation_studio.Worker.Lane.{update_job, checkout_active}
use situation_studio.Worker.Lane.Invariant.{is_misplaced, LaneInv}
use situation_studio.Worker.Steps.{update_steps}
use situation_studio.Worker.Steps.Untouched.{update_steps-LaneInv, any-update_steps}
use situation_studio.Workflow.Guards.{
  find_held, is_held_by, assert_no_active_publication, latest_revision, non_empty,
}
use situation_studio.Workflow.Review.{
  Outside, Command, ReviewCommand, queue_review, is_focused_on, new_job, check_revision, add_review,
}
use situation_studio.Workflow.Retry.{
  retry_review, resume_steps, requeue_retried, lane_is_busy, resume_review,
}
use situation_studio.Workflow.Keeping.{Sound}

module _ (out : Outside) (db : Db) (inv : LaneInv db.checkouts db.jobs)
    (fresh : any (λ j. j.id == out.fresh_id) db.jobs ≡ false) (c : Checkout) (m : In c db.checkouts)
    (r : Revision) where
  new_job_rooted : is_misplaced db.checkouts (new_job out c r) ≡ false
  unfolding is_misplaced new_job
  new_job_rooted =
      unique_row (λ d. d.id == c.id) (λ d. not (d.situation_id == c.situation_id)) db.checkouts c m
        (==_self c.id) (inv.checkout_ids c.id) (ground (arith, ==_self c.situation_id))

  queued-LaneInv :
      one_active_review c.situation_id (db.jobs ++ new_job out c r ∷ []) ≡ true
      → LaneInv db.checkouts (db.jobs ++ new_job out c r ∷ [])
  unfolding one_active_review new_job
  queued-LaneInv key = record {
    distinct = λ k. ground (
      arith,
      count-snoc (λ j. j.id == k) (new_job out c r) db.jobs,
      inv.distinct k,
      count-zero (λ j. j.id == out.fresh_id) db.jobs fresh,
    );
    single = ground (arith, count-snoc (λ j. j.lane_owner) (new_job out c r) db.jobs, inv.single);
    owned = ground (
      arith,
      any-snoc (λ j. is_running j.state && not j.lane_owner) (new_job out c r) db.jobs,
      inv.owned,
    );
    live =
        any-snoc (λ j. is_running j.state && not (checkout_active db.checkouts j)) (new_job out c r)
          db.jobs
        ∙ ground (arith, inv.live);
    one_review = λ k. elim (Bool-cases (c.situation_id == k)) [
      | inl e ↦ rw (← (==_iff c.situation_id k).0 e) (ground (arith, key))
      | inr e ↦ ground (
        arith,
        count-snoc (λ j. is_active j.state && j.situation_id == k) (new_job out c r) db.jobs,
        inv.one_review k,
      )
    ];
    rooted =
        any-snoc (is_misplaced db.checkouts) (new_job out c r) db.jobs
        ∙ ground (arith, inv.rooted, new_job_rooted);
    checkout_ids = inv.checkout_ids;
  }

module _ (checkouts : List Checkout) (jobs : List ReviewJob) (inv : LaneInv checkouts jobs)
    (id situation_id : Uuid)
    (same : any (λ x. x.id == id && not (x.situation_id == situation_id)) jobs ≡ false)
    (keys : review_keys situation_id (update_job id requeue_retried jobs) ≡ true) where
  abbrev named : ReviewJob → Bool
  named x = x.id == id && x.situation_id == situation_id

  retried_one :
      (k : Uuid)
      → (situation_id == k) ≡ false
      → count (λ j. is_active j.state && j.situation_id == k) (update_job id requeue_retried jobs)
        ≤ 1
  unfolding update_job requeue_retried
  retried_one k e =
      rw
        (update_many_restrict (λ x. x.id == id) (λ x. x.situation_id == situation_id)
          requeue_retried jobs same)
        (omega (
          arith,
          inv.one_review k,
          count-update_many-le_of (λ j. is_active j.state && j.situation_id == k) named
              requeue_retried (λ x. ground arith) jobs,
        ))

  retried-LaneInv : LaneInv checkouts (update_job id requeue_retried jobs)
  unfolding update_job requeue_retried review_keys one_active_review one_lane_owner
  retried-LaneInv = record {
    distinct = λ k. omega (
      arith,
      inv.distinct k,
      count-update_many-le (λ x. x.id == k) (λ x. x.id == id) requeue_retried (λ x h. h) jobs,
    );
    single = ground (arith, keys);
    owned =
        any-update_many (λ x. is_running x.state && not x.lane_owner) (λ x. x.id == id)
          requeue_retried (λ x e. refl) jobs inv.owned;
    live =
        any-update_many (λ x. is_running x.state && not (checkout_active checkouts x))
          (λ x. x.id == id) requeue_retried (λ x e. refl) jobs inv.live;
    one_review = λ k. elim (Bool-cases (situation_id == k)) [
      | inl e ↦ rw (← (==_iff situation_id k).0 e) (ground (arith, keys))
      | inr e ↦ retried_one k e
    ];
    rooted =
        any-update_many_of (is_misplaced checkouts) (λ x. x.id == id) requeue_retried
          (λ x e. unfold is_misplaced in λ h. h) jobs inv.rooted;
    checkout_ids = inv.checkout_ids;
  }

module _ (out : Outside) (db : Db) (inv : LaneInv db.checkouts db.jobs)
    (fresh : any (λ j. j.id == out.fresh_id) db.jobs ≡ false) (input : Command) (c : Checkout)
    (m : In c db.checkouts) (r : Revision) where
  added : Always Sound (add_review out input db c r)
  unfolding add_review new_job
  added = elim (Bool-cases (one_active_review c.situation_id (db.jobs ++ new_job out c r ∷ []))) [
    | inl k ↦ rw (k) (queued-LaneInv out db inv fresh c m r k)
    | inr k ↦ rw (k) tt
  ]

  checked : Always Sound (check_revision out input db c r)
  unfolding check_revision
  checked = elim (Bool-cases (r.id == input.revision_id && r.bundle_hash == input.bundle_hash)) [
    | inr h ↦ rw (h) tt
    | inl h ↦ rw (h) (elim (Option-cases (non_empty r.body)) [
      | inl b ↦ rw (b) tt
      | inr (body, b) ↦ rw (b) (elim (Bool-cases (is_v2 r.schema_version)) [
        | inr v ↦ rw (v) tt
        | inl v ↦ rw (v) (elim (Result-cases (out.shared_snapshot r body)) [
          | inr (x, p) ↦ rw (p) tt
          | inl (u, p) ↦ rw (p) (elim (Bool-cases (out.is_safe_mdx body)) [
            | inr z ↦ rw (z) tt
            | inl z ↦ rw (z) (added)
          ])
        ])
      ])
    ])
  ]

module _ (out : Outside) (db : Db) (inv : LaneInv db.checkouts db.jobs) where
  pub queue_review-LaneInv :
      any (λ j. j.id == out.fresh_id) db.jobs ≡ false
      → (input : Command) → Always Sound (queue_review out input db)
  unfolding queue_review
  queue_review-LaneInv fresh input =
      elim (Option-cases (find_held input.checkout_id input.actor_id input.fence db)) [
        | inl e ↦ rw (e) tt
        | inr (c, e) ↦ rw (e) (elim (Bool-cases (any (is_focused_on c) db.jobs)) [
          | inl b ↦ rw (b) tt
          | inr b ↦ rw (b) (elim (Result-cases (assert_no_active_publication c.situation_id db)) [
            | inr (x, p) ↦ rw (p) tt
            | inl (u, p) ↦ rw (p) (elim (Option-cases (latest_revision c.draft_id db.revisions)) [
              | inl r ↦ rw (r) tt
              | inr (r, q) ↦ rw (q) (
                  checked out db inv fresh input c
                    (unfold find_held in
                      find_first-In (is_held_by input.checkout_id input.actor_id input.fence)
                        db.checkouts c e)
                    r)
            ])
          ])
        ])
      ]

module _ (db : Db) (inv : LaneInv db.checkouts db.jobs) (job : ReviewJob) (m : In job db.jobs) where
  resume_steps-LaneInv :
      (failed : ReviewStep) → LaneInv db.checkouts (resume_steps job failed db.jobs)
  unfolding resume_steps
  resume_steps-LaneInv failed =
      let p : ReviewJob → ReviewStep → Bool = λ _ s. s.id == failed.id in
      let f : ReviewStep → ReviewStep =
        λ s. record s { state = StepState.ready; started_at = none; finished_at = none } in
      update_steps-LaneInv db.checkouts
        (λ j s. j.id == job.id && ltb failed.ordinal s.ordinal && not (step_is_succeeded s.state))
        (λ s. record s { state = StepState.pending; started_at = none; finished_at = none })
        (update_steps p f db.jobs) (update_steps-LaneInv db.checkouts p f db.jobs inv)

  same_situation :
      (failed : ReviewStep)
      → any
          (λ x. x.id == job.id && not (x.situation_id == job.situation_id))
          (resume_steps job failed db.jobs)
        ≡ false
  unfolding resume_steps
  same_situation failed =
      let p : ReviewJob → ReviewStep → Bool = λ _ s. s.id == failed.id in
      let f : ReviewStep → ReviewStep =
        λ s. record s { state = StepState.ready; started_at = none; finished_at = none } in
      let q : ReviewJob → Bool = λ x. x.id == job.id && not (x.situation_id == job.situation_id) in
      any-update_steps q (λ j s. refl)
        (λ j s. j.id == job.id && ltb failed.ordinal s.ordinal && not (step_is_succeeded s.state))
        (λ s. record s { state = StepState.pending; started_at = none; finished_at = none })
        (update_steps p f db.jobs)
      ∙ any-update_steps q (λ j s. refl) p f db.jobs
      ∙ unique_row (λ x. x.id == job.id) (λ x. not (x.situation_id == job.situation_id)) db.jobs job
          m (==_self job.id) (inv.distinct job.id) (ground (arith, ==_self job.situation_id))

  resumed-LaneInv : (input : ReviewCommand) → Always Sound (resume_review input db job)
  unfolding resume_review
  resumed-LaneInv input =
      elim (Option-cases (find_first (λ (s : ReviewStep). step_is_failed s.state) job.steps)) [
        | inl e ↦ rw (e) tt
        | inr (failed, e) ↦ rw (e) (elim (Bool-cases (lane_is_busy job db.jobs)) [
          | inl b ↦ rw (b) tt
          | inr b ↦
              rw (b)
                (elim (Bool-cases (
                  review_keys job.situation_id
                    (update_job job.id requeue_retried (resume_steps job failed db.jobs)))) [
                      | inr k ↦ rw (k) tt
                      | inl k ↦ rw (k) (
                          retried-LaneInv db.checkouts (resume_steps job failed db.jobs)
                            (resume_steps-LaneInv failed) job.id job.situation_id
                            (same_situation failed) k)
                    ])
        ])
      ]

module _ (out : Outside) (db : Db) (inv : LaneInv db.checkouts db.jobs)
    (input : ReviewCommand) where
  pub retry_review-LaneInv : Always Sound (retry_review out input db)
  unfolding retry_review
  retry_review-LaneInv =
      elim (Option-cases
        (find_first (λ (j : ReviewJob). j.id == input.job_id && is_failed j.state) db.jobs)) [
          | inl e ↦ rw (e) tt
          | inr (job, e) ↦
              rw (e)
                (elim (Bool-cases (
                  job.input_revision_id == input.revision_id
                  && job.input_bundle_hash == input.bundle_hash)) [
                    | inr b ↦ rw (b) tt
                    | inl b ↦
                        rw (b)
                          (elim (Option-cases (
                            find_first (λ (r : Revision). r.id == job.input_revision_id)
                              db.revisions)) [
                                | inl r ↦ rw (r) tt
                                | inr (r, q) ↦ rw (q) (elim (Option-cases (non_empty r.body)) [
                                  | inl t ↦ rw (t) tt
                                  | inr (body, t) ↦
                                      rw (t) (elim (Bool-cases (out.is_safe_mdx body)) [
                                        | inr z ↦ rw (z) tt
                                        | inl z ↦
                                            rw (z)
                                              (elim (Option-cases (
                                                find_held job.checkout_id input.actor_id
                                                  job.checkout_fence db)) [
                                                    | inl f ↦ rw (f) tt
                                                    | inr (c, f) ↦
                                                        rw (f)
                                                          (elim (Result-cases (
                                                            assert_no_active_publication
                                                            c.situation_id db)) [
                                                              | inr (x, p) ↦ rw (p) tt
                                                              | inl (u, p) ↦ rw (p) (
                                                                resumed-LaneInv db inv job
                                                                (find_first-In
                                                                (λ j.
                                                                j.id == input.job_id
                                                                && is_failed j.state)
                                                                db.jobs job e)
                                                                input)
                                                            ])
                                                  ])
                                      ])
                                ])
                              ])
                  ])
        ]
