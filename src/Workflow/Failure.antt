-- ===== src/Workflow/Failure.antt =====
-- `WorkflowError`: one constructor for each message that is thrown, with its HTTP status and code.
use situation_studio.Prelude.{ℕ, String, Uuid}

pub data WorkflowError : Type 0 where
  checkout_not_active stale_checkout publication_recovery_required publication_active :
      WorkflowError
  review_active review_focused_unresolved draft_not_saved body_not_saved : WorkflowError
  stale_revision legacy_draft_requires_sync unsafe_managed_mdx review_already_active : WorkflowError
  review_not_stoppable stale_review checkout_owner_required : WorkflowError
  failed_review_unavailable stale_failed_review reviewed_body_unavailable : WorkflowError
  original_checkout_inactive no_failed_step review_lane_busy : WorkflowError
  reason_required no_active_checkout : WorkflowError
  checked_out_by : (holder_id : Uuid) → WorkflowError
  checkout_race wrong_situation invalid_content invalid_scoped_artifact : WorkflowError
  publication_intent_required row_missing unique_violation : WorkflowError
  new_situation_context_required : WorkflowError

-- The status that a thrown error carries; a row that `findUniqueOrThrow` misses is no `WorkflowError`
-- and ends as 500.
unfoldable status : WorkflowError → ℕ
status review_not_stoppable = 404
status failed_review_unavailable = 404
status no_active_checkout = 404
status checkout_owner_required = 403
status unsafe_managed_mdx = 422
status reason_required = 422
status invalid_content = 422
status invalid_scoped_artifact = 422
status publication_intent_required = 422
status new_situation_context_required = 422
status row_missing = 500
status unique_violation = 500
status _ = 409

unfoldable code : WorkflowError → String
code stale_checkout = "STALE_CHECKOUT"
code publication_recovery_required = "PUBLICATION_RECOVERY_REQUIRED"
code publication_active = "PUBLICATION_ACTIVE"
code review_active = "REVIEW_ACTIVE"
code review_focused_unresolved = "REVIEW_FOCUSED_UNRESOLVED"
code stale_revision = "STALE_REVISION"
code legacy_draft_requires_sync = "LEGACY_DRAFT_REQUIRES_SYNC"
code unsafe_managed_mdx = "UNSAFE_MANAGED_MDX"
code stale_review = "STALE_REVIEW"
code stale_failed_review = "STALE_REVIEW"
code checkout_owner_required = "CHECKOUT_OWNER_REQUIRED"
code review_lane_busy = "REVIEW_LANE_BUSY"
code invalid_content = "INVALID_CONTENT"
code invalid_scoped_artifact = "INVALID_SCOPED_ARTIFACT"
code publication_intent_required = "PUBLICATION_INTENT_REQUIRED"
code new_situation_context_required = "NEW_SITUATION_CONTEXT_REQUIRED"
code _ = "WORKFLOW_CONFLICT"
