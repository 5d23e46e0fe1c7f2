-- ===== src/Workflow/Revision.antt =====
-- `createRevision`: a save adds a revision to its draft, if the draft is where the editor left it.
pub mod Saving
use situation_studio.Prelude.{
  ℕ, ◌+◌, String, Bool, true, false, ◌&&◌, ◌||◌, not, ◌==◌, Option, none, some, List, [], ◌∷◌, ◌++◌,
  Uuid, Digest, Millis, same, is_none, if◌then◌else◌,
}
use situation_studio.Prelude.Rows.{find_first, count, update_many}
use situation_studio.Prelude.Results.{Result, ok, err, require, ◌>>=◌, ◌>>◌}
use situation_studio.Store.{Db, Draft, Revision, SchemaVersion}
use situation_studio.Workflow.Failure.{WorkflowError, row_missing, stale_revision}
use situation_studio.Workflow.Guards.{latest_revision, or_throw}

-- What the shared schema makes of the bundle and the body of a save.
pub record Content : Type 0 where
  pub bundle_hash : Digest
  pub schema_version : SchemaVersion
  pub contract_version : String
  pub body : String

-- `content` is the parse of the bundle with its checks, which may throw. The two expected columns of
-- the parent are given together.
pub record Save : Type 0 where
  pub draft_id : Uuid
  pub actor_id : Uuid
  pub content : Result WorkflowError Content
  pub named_checkpoint : String
  pub expected_parent : Option (Uuid × Digest)
  pub preserve_proposal_id : Option Uuid

abbrev pub is_parent : Option (Uuid × Digest) → Option Revision → Bool
is_parent none previous = true
is_parent (some (id, hash)) none = false
is_parent (some (id, hash)) (some r) = r.id == id && r.bundle_hash == hash

abbrev parent_id : Option Revision → Option Uuid
parent_id none = none
parent_id (some r) = some r.id

unfoldable pub new_revision : Uuid → Save → Content → Draft → Option Revision → Revision
new_revision id input c draft previous = record {
  id = id;
  draft_id = draft.id;
  revision = draft.current_revision_number + 1;
  parent_id = parent_id previous;
  bundle_hash = c.bundle_hash;
  schema_version = c.schema_version;
  contract_version = c.contract_version;
  actor_id = input.actor_id;
  named_checkpoint = input.named_checkpoint;
  body = some c.body;
}

-- The draft that still has the head that was read.
unfoldable pub is_unmoved : Draft → Draft → Bool
is_unmoved read d =
    d.id == read.id
    && d.current_revision_number == read.current_revision_number
    && same d.current_bundle_hash read.current_bundle_hash

-- The open proposals on the revision that is replaced.
unfoldable pub supersede : Millis → Uuid → Option Uuid → Option Revision → Db → Db
supersede now id preserved none db = db
supersede now id preserved (some previous) db = record db {
  proposals =
      update_many
        (λ p.
          p.current_revision_id == previous.id
          && is_none p.superseded_at
          && not (same (some p.id) preserved))
        (λ p. record p { superseded_at = some now; superseded_by_revision_id = some id })
        db.proposals;
}

-- The writes of a revision that is not the last one again.
unfoldable pub add_revision :
    Millis
    → Uuid
    → Save
    → Content
    → Draft
    → Option Revision
    → Db
    → Result WorkflowError (Revision × Db)
unfolding new_revision is_unmoved supersede
add_revision now id input c draft previous db = do
  let r = new_revision id input c draft previous
  require (count (is_unmoved draft) db.drafts == 1) stale_revision
  ok (
    r,
    supersede now id input.preserve_proposal_id previous (record db {
      revisions = db.revisions ++ r ∷ [];
      drafts =
          update_many (is_unmoved draft)
            (λ d. record d {
              current_revision_number = r.revision;
              current_bundle_hash = some r.bundle_hash;
            })
            db.drafts;
    }),
  )

-- `id` is new.
unfoldable pub create_revision : Millis → Uuid → Save → Db → Result WorkflowError (Revision × Db)
unfolding add_revision
create_revision now id input db = do
  draft ← or_throw (find_first (λ d. d.id == input.draft_id) db.drafts) row_missing
  let previous = latest_revision draft.id db.revisions
  c ← input.content
  require (is_parent input.expected_parent previous) stale_revision
  elim previous [
    | some r ↦
        if r.bundle_hash == c.bundle_hash
        then ok (r, db)
        else add_revision now id input c draft (some r) db
    | none ↦ add_revision now id input c draft none db
  ]
