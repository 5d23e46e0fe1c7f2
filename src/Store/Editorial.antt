-- ===== src/Store/Editorial.antt =====
-- Situations, their checkouts, drafts and revisions, and the proposals of a review.
use situation_studio.Prelude.{Uuid, Digest, Millis, ℕ, String, Bool, true, false, Option}

pub data Visibility : Type 0 where
  public retired unpublished : Visibility

pub record Situation : Type 0 where
  pub id : Uuid
  pub slug : String
  pub title : String
  pub visibility : Visibility
  pub fence : ℕ
  pub production_bundle_hash : Option Digest
  pub production_release_id : Option Uuid

pub data ReleaseReason : Type 0 where
  checked_in forced_check_in published : ReleaseReason

pub record Checkout : Type 0 where
  pub id : Uuid
  pub situation_id : Uuid
  pub holder_id : Uuid
  pub draft_id : Uuid
  pub fence : ℕ
  pub released_at : Option Millis
  pub release_reason : Option ReleaseReason
  pub forced_by_id : Option Uuid
  pub force_reason : Option String
  pub resulting_draft_hash : Option Digest

pub data DraftState : Type 0 where
  active archived : DraftState

pub record Draft : Type 0 where
  pub id : Uuid
  pub situation_id : Uuid
  pub lineage : ℕ
  pub state : DraftState
  pub base_release_id : Option Uuid
  pub base_bundle_hash : Option Digest
  pub rebase_release_id : Option Uuid
  pub conflicted_at : Option Millis
  pub archived_at : Option Millis
  pub current_revision_number : ℕ
  pub current_bundle_hash : Option Digest

-- `situation-bundle-v1` and `situation-bundle-v2`.
pub data SchemaVersion : Type 0 where
  v1 v2 : SchemaVersion

-- A revision with what the workflows read of its manifest; `body` is the text of the artifact of
-- kind SITUATION.
pub record Revision : Type 0 where
  pub id : Uuid
  pub draft_id : Uuid
  pub revision : ℕ
  pub parent_id : Option Uuid
  pub bundle_hash : Digest
  pub schema_version : SchemaVersion
  pub contract_version : String
  pub actor_id : Uuid
  pub named_checkpoint : String
  pub body : Option String

pub record Proposal : Type 0 where
  pub id : Uuid
  pub job_id : Uuid
  pub current_revision_id : Uuid
  pub superseded_at : Option Millis
  pub superseded_by_revision_id : Option Uuid

abbrev pub draft_is_active : DraftState → Bool
draft_is_active DraftState.active = true
draft_is_active DraftState.archived = false

abbrev pub is_v2 : SchemaVersion → Bool
is_v2 v1 = false
is_v2 v2 = true
