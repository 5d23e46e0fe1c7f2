-- ===== src/Workflow/Checkout.antt =====
-- `checkoutSituation`, `startOverFromProduction`, and `createDraftFromProduction`, which both call.
pub mod Ownership
use situation_studio.Prelude.{
  ℕ, ◌+◌, String, Bool, true, false, ◌&&◌, ◌||◌, not, ◌==◌, Option, none, some, List, [], ◌∷◌, ◌++◌,
  Uuid, Digest, Millis, same, is_none, ltb, leb, if◌then◌else◌,
}
use situation_studio.Prelude.Rows.{find_first, count, update_many, select}
use situation_studio.Prelude.Results.{Result, ok, err, require, ◌>>=◌, ◌>>◌}
use situation_studio.Store.{
  Db, Draft, DraftState, Checkout, Situation, draft_is_active, situation_checked_out,
  draft_reset_from_production,
}
use situation_studio.Workflow.Failure.{
  WorkflowError, row_missing, checked_out_by, checkout_race, unique_violation,
  new_situation_context_required, checkout_not_active,
}
use situation_studio.Workflow.Guards.{
  assert_no_publication_recovery, assert_no_active_publication, find_held, or_throw,
}
use situation_studio.Workflow.Revision.{Content, Save, create_revision}

-- The version of a situation that is in production, with what a draft takes from it.
pub record BaseVersion : Type 0 where
  pub release_id : Uuid
  pub bundle_hash : Digest
  pub content : Result WorkflowError Content

-- The production tables, read by situation, and the template of a new situation, where the tables have
-- the context that it needs; the ids and the time that the database gives.
pub record Production : Type 0 where
  pub base_version : Uuid → Option BaseVersion
  pub template : Situation → Option (Result WorkflowError Content)
  pub now : Millis
  pub draft_id : Uuid
  pub revision_id : Uuid
  pub checkout_id : Uuid

-- `_max: { lineage: true }`, 0 without drafts.
unfoldable pub max_lineage : Uuid → List Draft → ℕ
max_lineage situation_id [] = 0
max_lineage situation_id (d ∷ ds) =
    let rest = max_lineage situation_id ds in
    if d.situation_id == situation_id && ltb rest d.lineage then d.lineage else rest

abbrev release_of : Option BaseVersion → Option Uuid
release_of none = none
release_of (some v) = some v.release_id

abbrev hash_of : Option BaseVersion → Option Digest
hash_of none = none
hash_of (some v) = some v.bundle_hash

unfoldable pub new_draft : Production → Situation → Option BaseVersion → ℕ → Draft
new_draft out s base lineage = record {
  id = out.draft_id;
  situation_id = s.id;
  lineage = lineage + 1;
  state = DraftState.active;
  base_release_id = release_of base;
  base_bundle_hash = hash_of base;
  rebase_release_id = none;
  conflicted_at = none;
  archived_at = none;
  current_revision_number = 0;
  current_bundle_hash = none;
}

-- `drafts_one_active_per_situation`
unfoldable pub one_active_draft : Uuid → List Draft → Bool
one_active_draft id ds = leb (count (λ d. draft_is_active d.state && d.situation_id == id) ds) 1

unfoldable pub baseline : Production → Situation → Option BaseVersion → Result WorkflowError Content
baseline out s none = elim (out.template s) [
  | none ↦ err new_situation_context_required
  | some content ↦ content
]
baseline out s (some v) = v.content

abbrev pub checkpoint : Option BaseVersion → String
checkpoint none = "Created"
checkpoint (some v) = "Checked out from production"

-- The arguments that `createRevision` gets.
abbrev pub first_save : Production → Uuid → Option BaseVersion → Content → Save
first_save out actor_id base content = record {
  draft_id = out.draft_id;
  actor_id = actor_id;
  content = ok content;
  named_checkpoint = checkpoint base;
  expected_parent = none;
  preserve_proposal_id = none;
}

unfoldable pub create_draft_from_production :
    Production → Situation → Uuid → Db → Result WorkflowError (Draft × Db)
unfolding max_lineage new_draft one_active_draft baseline
create_draft_from_production out s actor_id db = do
  let base = out.base_version s.id
  let drafts' = db.drafts ++ new_draft out s base (max_lineage s.id db.drafts) ∷ []
  require (one_active_draft s.id drafts') unique_violation
  content ← baseline out s base
  (r, db') ←
      create_revision out.now out.revision_id (first_save out actor_id base content)
        (record db { drafts = drafts' })
  draft ← or_throw (find_first (λ d. d.id == out.draft_id) db'.drafts) row_missing
  ok (draft, db')

abbrev later_lineage : Draft → Option Draft → Draft
later_lineage d none = d
later_lineage d (some e) = if ltb d.lineage e.lineage then e else d

-- `orderBy: { lineage: "desc" }`
unfoldable pub active_draft : Uuid → List Draft → Option Draft
active_draft situation_id [] = none
active_draft situation_id (d ∷ ds) =
    let rest = active_draft situation_id ds in
    if d.situation_id == situation_id && draft_is_active d.state
    then some (later_lineage d rest)
    else rest

abbrev pub differs_from_base : Situation → Option Digest → Bool
differs_from_base s none = false
differs_from_base s (some h) = not (same s.production_bundle_hash (some h))

-- The draft of a checkout: a new one, or the active one with a note of what production did since.
unfoldable pub resume_draft :
    Production → Situation → Uuid → Db → Option Draft → Result WorkflowError (Uuid × Db)
unfolding create_draft_from_production
resume_draft out s actor_id db none = do
  (draft, db') ← create_draft_from_production out s actor_id db
  ok (draft.id, db')
resume_draft out s actor_id db (some d) =
    if differs_from_base s d.base_bundle_hash
    then ok (
      d.id,
      record db {
        drafts =
            update_many (λ x. x.id == d.id) (λ x. record x { conflicted_at = some out.now })
              db.drafts;
      },
    )
    else if not (same s.production_release_id d.base_release_id)
    then ok (
      d.id,
      record db {
        drafts =
            update_many (λ x. x.id == d.id)
              (λ x. record x { rebase_release_id = s.production_release_id }) db.drafts;
      },
    )
    else ok (d.id, db)

-- `situation_checkouts_one_active_per_situation`
unfoldable pub one_open_checkout : Uuid → List Checkout → Bool
one_open_checkout id cs = leb (count (λ c. c.situation_id == id && is_none c.released_at) cs) 1

unfoldable pub new_checkout : Production → Situation → Uuid → Uuid → Checkout
new_checkout out s actor_id draft_id = record {
  id = out.checkout_id;
  situation_id = s.id;
  holder_id = actor_id;
  draft_id = draft_id;
  fence = s.fence + 1;
  released_at = none;
  release_reason = none;
  forced_by_id = none;
  force_reason = none;
  resulting_draft_hash = none;
}

-- The fence moves on, and the checkout takes it.
unfoldable pub open_checkout :
    Production → Situation → Uuid → Uuid → Db → Result WorkflowError (Checkout × Db)
unfolding new_checkout one_open_checkout
open_checkout out s actor_id draft_id db = do
  let c = new_checkout out s actor_id draft_id
  let checkouts' = db.checkouts ++ c ∷ []
  require (one_open_checkout s.id checkouts') unique_violation
  ok (
    c,
    record db {
      situations =
          update_many (λ x. x.id == s.id) (λ x. record x { fence = x.fence + 1 }) db.situations;
      checkouts = checkouts';
      audit =
          db.audit
          ++ record {
            actor_id = some actor_id;
            action = situation_checked_out c.id c.fence;
            subject_id = s.id;
          }
            ∷ [];
    },
  )

unfoldable pub checkout_transaction :
    Production → Uuid → Uuid → Db → Result WorkflowError (Checkout × Db)
unfolding active_draft resume_draft open_checkout
checkout_transaction out situation_id actor_id db = do
  assert_no_publication_recovery db
  s ← or_throw (find_first (λ x. x.id == situation_id) db.situations) row_missing
  elim (find_first (λ (c : Checkout). c.situation_id == s.id && is_none c.released_at)
      db.checkouts) [
        | some c ↦ err (checked_out_by c.holder_id)
        | none ↦ (do
          (draft_id, db') ← resume_draft out s actor_id db (active_draft s.id db.drafts)
          open_checkout out s actor_id draft_id db')
      ]

-- A unique violation is a race that another editor has won.
abbrev race : WorkflowError → WorkflowError
race unique_violation = checkout_race
race e = e

abbrev pub lost_checkout :
    Result WorkflowError (Checkout × Db) → Result WorkflowError (Checkout × Db)
lost_checkout (err e) = err (race e)
lost_checkout (ok r) = ok r

-- `reconcileLeadershipRelease`, which runs before, reads another system.
unfoldable pub checkout_situation :
    Production → Uuid → Uuid → Db → Result WorkflowError (Checkout × Db)
unfolding checkout_transaction
checkout_situation out situation_id actor_id db =
    lost_checkout (checkout_transaction out situation_id actor_id db)

unfoldable pub archive_draft : Millis → Uuid → List Draft → List Draft
archive_draft now id =
    update_many (λ d. d.id == id)
      (λ d. record d { state = DraftState.archived; archived_at = some now })

unfoldable pub start_over_from_production :
    Production → Uuid → Uuid → ℕ → Db → Result WorkflowError (Draft × Db)
unfolding archive_draft create_draft_from_production
start_over_from_production out actor_id checkout_id fence db = do
  checkout ← or_throw (find_held checkout_id actor_id fence db) checkout_not_active
  s ← or_throw (find_first (λ x. x.id == checkout.situation_id) db.situations) row_missing
  assert_no_active_publication checkout.situation_id db
  (next, db') ←
      create_draft_from_production out s actor_id
        (record db { drafts = archive_draft out.now checkout.draft_id db.drafts })
  ok (
    next,
    record db' {
      checkouts =
          update_many (λ c. c.id == checkout.id) (λ c. record c { draft_id = next.id })
            db'.checkouts;
      audit =
          db'.audit
          ++ record {
            actor_id = some actor_id;
            action = draft_reset_from_production checkout.draft_id next.id s.production_release_id;
            subject_id = checkout.situation_id;
          }
            ∷ [];
    },
  )
