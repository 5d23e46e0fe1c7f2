-- ===== src/Workflow/Checkin.antt =====
-- `checkInSituation` and `forceCheckInSituation`: a checkout ends.
use situation_studio.Prelude.{
  ℕ, ◌+◌, String, false, not, ◌&&◌, ◌==◌, Option, some, List, [], ◌∷◌, ◌++◌, Uuid, Millis, Digest,
  ltb, is_none,
}
use situation_studio.Prelude.Rows.{find_first, update_many}
use situation_studio.Prelude.Results.{Result, ok, require, ◌>>=◌, ◌>>◌}
use situation_studio.Store.{
  Db, ReviewJob, Checkout, Situation, ReleaseReason, checked_in, forced_check_in,
  situation_checked_in, situation_force_checked_in, is_unresolved,
}
use situation_studio.Workflow.Failure.{
  WorkflowError, checkout_not_active, reason_required, no_active_checkout, row_missing,
}
use situation_studio.Workflow.Guards.{
  assert_no_active_publication, assert_no_active_review, find_held, or_throw,
}
use situation_studio.Workflow.Review.{stop_steps, stop_job}

unfoldable pub release :
    Uuid
    → Millis
    → ReleaseReason
    → Option Uuid
    → Option String
    → Option Digest
    → List Checkout
    → List Checkout
release id now reason forced_by force_reason hash =
    update_many (λ c. c.id == id)
      (λ c. record c {
        released_at = some now;
        release_reason = some reason;
        forced_by_id = forced_by;
        force_reason = force_reason;
        resulting_draft_hash = hash;
      })

-- The draft that a checkout includes.
unfoldable pub draft_hash : Checkout → Db → Result WorkflowError (Option Digest)
draft_hash checkout db = do
  draft ← or_throw (find_first (λ d. d.id == checkout.draft_id) db.drafts) row_missing
  ok draft.current_bundle_hash

unfoldable pub drop_lane : Uuid → List ReviewJob → List ReviewJob
drop_lane checkout_id =
    update_many (λ j. j.checkout_id == checkout_id && j.lane_owner)
      (λ j. record j { lane_owner = false })

unfoldable pub check_in_situation :
    Millis → Uuid → Uuid → ℕ → Db → Result WorkflowError (Unit {0} × Db)
unfolding release draft_hash drop_lane
check_in_situation now actor_id checkout_id fence db = do
  checkout ← or_throw (find_held checkout_id actor_id fence db) checkout_not_active
  hash ← draft_hash checkout db
  assert_no_active_publication checkout.situation_id db
  assert_no_active_review checkout.situation_id db
  ok (
    tt,
    record db {
      jobs = drop_lane checkout.id db.jobs;
      checkouts =
          release checkout.id now checked_in checkout.forced_by_id checkout.force_reason hash
            db.checkouts;
      audit =
          db.audit
          ++ record {
            actor_id = some actor_id;
            action = situation_checked_in checkout.id;
            subject_id = checkout.situation_id;
          }
            ∷ [];
    },
  )

unfoldable pub stop_reviews : Uuid → Millis → Uuid → List ReviewJob → List ReviewJob
unfolding stop_steps stop_job
stop_reviews checkout_id now admin_id =
    update_many (λ j. j.checkout_id == checkout_id && is_unresolved j.state)
      (λ j.
        stop_job now admin_id "Administrative force check-in"
          (record j { steps = stop_steps now j.steps }))

unfoldable pub advance_fence : Uuid → List Situation → List Situation
advance_fence id = update_many (λ s. s.id == id) (λ s. record s { fence = s.fence + 1 })

-- JavaScript's `trim`, and `length` of a text.
pub record TextOperations : Type 0 where
  pub trim : String → String
  pub length : String → ℕ

unfoldable pub force_check_in_situation :
    TextOperations → Millis → Uuid → Uuid → String → Db → Result WorkflowError (Unit {0} × Db)
unfolding release draft_hash stop_reviews advance_fence
force_check_in_situation text now admin_id situation_id reason db = do
  require (not (ltb (text.length (text.trim reason)) 3)) reason_required
  checkout ←
      or_throw
        (find_first (λ c. c.situation_id == situation_id && is_none c.released_at) db.checkouts)
        no_active_checkout
  hash ← draft_hash checkout db
  assert_no_active_publication checkout.situation_id db
  ok (
    tt,
    record db {
      jobs = stop_reviews checkout.id now admin_id db.jobs;
      checkouts =
          release checkout.id now forced_check_in (some admin_id) (some (text.trim reason)) hash
            db.checkouts;
      situations = advance_fence situation_id db.situations;
      audit =
          db.audit
          ++ record {
            actor_id = some admin_id;
            action =
                situation_force_checked_in checkout.id checkout.holder_id (text.trim reason) hash;
            subject_id = situation_id;
          }
            ∷ [];
    },
  )
