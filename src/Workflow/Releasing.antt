-- ===== src/Workflow/Releasing.antt =====
-- A checkout ends: no job that runs is left without one.
use situation_studio.Prelude.{
  ℕ, ◌≡◌, refl, inl, inr, Bool, true, false, ◌&&◌, ◌||◌, not, Option, some, List, [], ◌∷◌, arith,
  any, Uuid, Millis, String, Digest, ◌==◌, ltb, Option-cases, Bool-cases, is_none,
}
use situation_studio.Prelude.Rows.{find_first, update_many}
use situation_studio.Prelude.Writes.{
  any_cover, any_mono, any-update_many_of, any-update_many_all, any-update_many_same,
  count-update_many_same,
}
use situation_studio.Prelude.Members.{In, In-any, find_first-In, update_many_restrict}
use situation_studio.Prelude.Results.{Always, Result-cases}
use situation_studio.Store.{
  Db, ReviewJob, Checkout, ReleaseReason, is_running, is_active, is_unresolved,
}
use situation_studio.Worker.Lane.{checkout_active}
use situation_studio.Worker.Lane.Invariant.{is_misplaced, LaneInv}
use situation_studio.Worker.Keeping.{harmless-LaneInv}
use situation_studio.Workflow.Guards.{
  find_held, is_held_by, assert_no_active_publication, assert_no_active_review,
}
use situation_studio.Workflow.Review.{stop_job, stop_steps}
use situation_studio.Workflow.Keeping.{Sound, stop_job-Harmless}
use situation_studio.Workflow.Checkin.{
  check_in_situation, force_check_in_situation, TextOperations, release, drop_lane, draft_hash,
  stop_reviews,
}

-- A running job of the checkout `id`.
abbrev runs_under : Uuid → ReviewJob → Bool
runs_under id x = is_running x.state && x.checkout_id == id

module _ (checkouts : List Checkout) (jobs : List ReviewJob) (id : Uuid) (f : Checkout → Checkout)
    (ids : (c : Checkout) → (f c).id ≡ c.id)
    (situations : (c : Checkout) → (f c).situation_id ≡ c.situation_id) where
  abbrev after : List Checkout
  after = update_many (λ c. c.id == id) f checkouts

  same_place : (x : ReviewJob) → is_misplaced after x ≡ is_misplaced checkouts x
  unfolding is_misplaced
  same_place x =
      any-update_many_same (λ c. c.id == x.checkout_id && not (c.situation_id == x.situation_id))
        (λ c. c.id == id) f (λ c e. rw (ids c, situations c) refl) checkouts

  still_active :
      (x : ReviewJob)
      → (x.checkout_id == id) ≡ false
      → checkout_active after x ≡ checkout_active checkouts x
  unfolding checkout_active
  still_active x d =
      any-update_many_same
        (λ c. c.id == x.checkout_id && c.fence == x.checkout_fence && is_none c.released_at)
        (λ c. c.id == id) f (λ c e. ground (arith, ids c)) checkouts

  pub released-LaneInv :
      any (runs_under id) jobs ≡ false → LaneInv checkouts jobs → LaneInv after jobs
  released-LaneInv none_runs inv = record {
    distinct = inv.distinct;
    single = inv.single;
    owned = inv.owned;
    live =
        any_cover (λ x. is_running x.state && not (checkout_active checkouts x)) (runs_under id)
          (λ x. is_running x.state && not (checkout_active after x))
          (λ x h. ground (arith, still_active x)) jobs inv.live none_runs;
    one_review = inv.one_review;
    rooted =
        any_cover (is_misplaced checkouts) (λ x. false) (is_misplaced after)
          (λ x h. ground (arith, same_place x)) jobs inv.rooted (no_row jobs);
    checkout_ids = λ k.
        rw
          (count-update_many_same (λ c. c.id == k) (λ c. c.id == id) f (λ c e. rw (ids c) refl)
            checkouts)
          (inv.checkout_ids k);
  }
    where
      no_row : (xs : List ReviewJob) → any (λ x. false) xs ≡ false
      no_row [] = refl
      no_row (x ∷ xs) = no_row xs

-- A check-in that finds no active review of the situation finds none under the checkout.
module _ (checkouts : List Checkout) (jobs : List ReviewJob) (inv : LaneInv checkouts jobs)
    (c : Checkout) (m : In c checkouts) where
  none_runs :
      any (λ j. j.situation_id == c.situation_id && is_active j.state) jobs ≡ false
      → any (runs_under c.id) jobs ≡ false
  none_runs idle =
      any_cover (is_misplaced checkouts)
        (λ j. j.situation_id == c.situation_id && is_active j.state) (runs_under c.id) cover jobs
        inv.rooted idle
    where
      cover :
          (x : ReviewJob)
          → runs_under c.id x ≡ true
          → (is_misplaced checkouts x || x.situation_id == c.situation_id && is_active x.state)
            ≡ true
      cover x h = elim (Bool-cases (x.situation_id == c.situation_id)) [
        | inl e ↦ ground arith
        | inr e ↦
            unfold is_misplaced in
            ground (
              arith,
              In-any (λ d. d.id == x.checkout_id && not (d.situation_id == x.situation_id))
                  checkouts c m (ground arith),
            )
      ]

module _ (checkouts : List Checkout) (jobs : List ReviewJob) (id : Uuid) where
  drop_lane-LaneInv :
      any (runs_under id) jobs ≡ false
      → LaneInv checkouts jobs
      → LaneInv checkouts (drop_lane id jobs)
  unfolding drop_lane
  drop_lane-LaneInv idle inv =
      let f : ReviewJob → ReviewJob = λ j. record j { lane_owner = false } in
      rw
        (update_many_restrict (λ j. j.checkout_id == id && j.lane_owner)
          (λ j. not (is_running j.state)) f jobs
          (any_mono (λ j. (j.checkout_id == id && j.lane_owner) && not (not (is_running j.state)))
            (runs_under id) (λ x h. ground arith) jobs idle))
        (harmless-LaneInv checkouts
          (λ j. (j.checkout_id == id && j.lane_owner) && not (is_running j.state)) f
          (record {
            ids = λ x. refl;
            situations = λ x. refl;
            checkouts = λ x. refl;
            fences = λ x. refl;
            lanes = λ x. ground arith;
            keeps = λ x. ground arith;
            actives = λ x. ground arith;
          })
          jobs inv)

  drop_lane-idle :
      any (runs_under id) jobs ≡ false → any (runs_under id) (drop_lane id jobs) ≡ false
  unfolding drop_lane
  drop_lane-idle idle =
      any-update_many_of (runs_under id) (λ j. j.checkout_id == id && j.lane_owner)
        (λ j. record j { lane_owner = false }) (λ x e h. h) jobs idle

module _ (checkouts : List Checkout) (jobs : List ReviewJob) (id : Uuid) (now : Millis)
    (admin_id : Uuid) where
  stop_reviews-idle : any (runs_under id) (stop_reviews id now admin_id jobs) ≡ false
  unfolding stop_reviews stop_job
  stop_reviews-idle =
      any-update_many_all (runs_under id) (λ j. j.checkout_id == id && is_unresolved j.state)
        (λ j.
          stop_job now admin_id "Administrative force check-in"
            (record j { steps = stop_steps now j.steps }))
        (λ x e. ground arith) (λ x e. ground arith) jobs

  stop_reviews-LaneInv :
      LaneInv checkouts jobs → LaneInv checkouts (stop_reviews id now admin_id jobs)
  unfolding stop_reviews
  stop_reviews-LaneInv =
      harmless-LaneInv checkouts (λ j. j.checkout_id == id && is_unresolved j.state)
        (λ j.
          stop_job now admin_id "Administrative force check-in"
            (record j { steps = stop_steps now j.steps }))
        (stop_job-Harmless (λ j. j.checkout_id == id && is_unresolved j.state) now admin_id
          "Administrative force check-in")
        jobs

module _ (checkouts : List Checkout) (jobs : List ReviewJob) (id : Uuid) (now : Millis)
    (reason : ReleaseReason) (by : Option Uuid) (why : Option String) (hash : Option Digest) where
  release-LaneInv :
      any (runs_under id) jobs ≡ false
      → LaneInv checkouts jobs
      → LaneInv (release id now reason by why hash checkouts) jobs
  unfolding release
  release-LaneInv =
      released-LaneInv checkouts jobs id
        (λ c. record c {
          released_at = some now;
          release_reason = some reason;
          forced_by_id = by;
          force_reason = why;
          resulting_draft_hash = hash;
        })
        (λ c. refl) (λ c. refl)

module _ (now : Millis) (db : Db) (inv : LaneInv db.checkouts db.jobs) where
  pub check_in-LaneInv :
      (actor_id checkout_id : Uuid) (fence : ℕ)
      → Always Sound (check_in_situation now actor_id checkout_id fence db)
  unfolding check_in_situation
  check_in-LaneInv actor_id checkout_id fence =
      elim (Option-cases (find_held checkout_id actor_id fence db)) [
        | inl e ↦ rw (e) tt
        | inr (c, e) ↦ rw (e) (elim (Result-cases (draft_hash c db)) [
          | inr (x, h) ↦ rw (h) tt
          | inl (hash, h) ↦
              rw (h) (elim (Result-cases (assert_no_active_publication c.situation_id db)) [
                | inr (x, p) ↦ rw (p) tt
                | inl (u, p) ↦
                    rw (p)
                      (elim (Bool-cases (
                        any (λ j. j.situation_id == c.situation_id && is_active j.state) db.jobs)) [
                          | inl a ↦ unfold assert_no_active_review in rw (a) tt
                          | inr a ↦
                              unfold assert_no_active_review in
                              rw (a) (
                                done c hash
                                  (unfold find_held in
                                    find_first-In (is_held_by checkout_id actor_id fence)
                                      db.checkouts c e)
                                  a)
                        ])
              ])
        ])
      ]
    where
      done :
          (c : Checkout) (hash : Option Digest)
          → In c db.checkouts
          → any (λ j. j.situation_id == c.situation_id && is_active j.state) db.jobs ≡ false
          → LaneInv
              (release c.id now ReleaseReason.checked_in c.forced_by_id c.force_reason hash
                db.checkouts)
              (drop_lane c.id db.jobs)
      done c hash m a =
          let idle = none_runs db.checkouts db.jobs inv c m a in
          release-LaneInv db.checkouts (drop_lane c.id db.jobs) c.id now ReleaseReason.checked_in
            c.forced_by_id c.force_reason hash (drop_lane-idle db.checkouts db.jobs c.id idle)
            (drop_lane-LaneInv db.checkouts db.jobs c.id idle inv)

  pub force_check_in-LaneInv :
      (text : TextOperations) (admin_id situation_id : Uuid) (reason : String)
      → Always Sound (force_check_in_situation text now admin_id situation_id reason db)
  unfolding force_check_in_situation
  force_check_in-LaneInv text admin_id situation_id reason =
      elim (Bool-cases (ltb (text.length (text.trim reason)) 3)) [
        | inl b ↦ rw (b) tt
        | inr b ↦
            rw (b)
              (elim (Option-cases (
                find_first
                  (λ (c : Checkout). c.situation_id == situation_id && is_none c.released_at)
                  db.checkouts)) [
                    | inl e ↦ rw (e) tt
                    | inr (c, e) ↦ rw (e) (elim (Result-cases (draft_hash c db)) [
                      | inr (x, h) ↦ rw (h) tt
                      | inl (hash, h) ↦
                          rw (h)
                            (elim (Result-cases (assert_no_active_publication c.situation_id db)) [
                              | inr (x, p) ↦ rw (p) tt
                              | inl (u, p) ↦ rw (p) (
                                  release-LaneInv db.checkouts
                                    (stop_reviews c.id now admin_id db.jobs) c.id now
                                    ReleaseReason.forced_check_in (some admin_id)
                                    (some (text.trim reason)) hash
                                    (stop_reviews-idle db.checkouts db.jobs c.id now admin_id)
                                    (stop_reviews-LaneInv db.checkouts db.jobs c.id now admin_id
                                      inv))
                            ])
                    ])
                  ])
      ]
