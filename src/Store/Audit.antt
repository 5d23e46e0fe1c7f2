-- ===== src/Store/Audit.antt =====
-- The audit trail: an action with the fields of its payload.
use situation_studio.Prelude.{Uuid, Digest, Millis, ℕ, String, Bool, Option}
use situation_studio.Store.Review.{JobState, AgentFailureClass, FailurePhase, ReasonCode}

pub data AuditAction : Type 0 where
  situation_created : (slug : String) → AuditAction
  situation_checked_out : (checkout_id : Uuid) (fence : ℕ) → AuditAction
  situation_checked_in : (checkout_id : Uuid) → AuditAction
  situation_force_checked_in :
      (checkout_id former_holder_id : Uuid) (reason : String) (resulting_draft_hash : Option Digest)
      → AuditAction
  draft_reset_from_production :
      (archived_draft_id new_draft_id : Uuid) (production_release_id : Option Uuid) → AuditAction
  review_queued :
      (input_revision_id : Uuid) (input_bundle_hash : Digest) (step_count : ℕ) → AuditAction
  review_cancelled : (fence : ℕ) (previous_state : JobState) → AuditAction
  review_retried :
      (resumed_ordinal : ℕ) (input_revision_id : Uuid) (input_bundle_hash : Digest) → AuditAction
  review_stage_failed :
      (stage_ordinal : ℕ) (stage_role : String) (phase : FailurePhase) (class : AgentFailureClass)
      (reason_code : ReasonCode) (retryable : Bool) (attempt : Option ℕ)
      → AuditAction
  review_automatic_retry_scheduled :
      (stage_ordinal : ℕ) (stage_role : String) (phase : FailurePhase) (class : AgentFailureClass)
      (reason_code : ReasonCode) (attempt maximum_attempts : ℕ) (scheduled_retry_at : Millis)
      → AuditAction
  review_candidate_repair_scheduled : (maximum_repair_attempts repair_attempt : ℕ) → AuditAction
  publication_succeeded :
      (release_id : Uuid) (manifest_hash : Digest) (pointer_generation : ℕ) → AuditAction
  publication_recovery_reconciled :
      (release_id : Uuid) (manifest_hash : Digest) (pointer_generation : ℕ) → AuditAction

-- The worker's events have no actor.
pub record AuditEvent : Type 0 where
  pub actor_id : Option Uuid
  pub action : AuditAction
  pub subject_id : Uuid
