-- ===== src/Store/Publication.antt =====
-- Publication jobs with their attempts and events, and what a success leaves: an observation of the
-- release, a production version, a verification receipt and a backup to make.
use situation_studio.Prelude.{Uuid, Digest, Millis, ℕ, String, Bool, true, false, Option, List}

pub data PublicationState : Type 0 where
  requested assembling needs_refresh promoting verifying succeeded restored recovery_required
        failed :
      PublicationState

-- The texts of a publication's `failureCode`.
pub data FailureCode : Type 0 where
  runtime_capability_unavailable unsupported_version_pair unsupported_contract_identity
        canonical_snapshot_invalid practice_embed_mismatch prepared_action_mismatch
        preflight_required runtime_health_unavailable runtime_health_invalid_response
        runtime_identity_mismatch affected_route_verification_failed typed_projection_invalid
        publication_authority_lost publication_failed :
      FailureCode
  preflight_base_changed automatic_restoration_in_progress automatic_restoration_failed
        promotion_state_unverified verification_failed_restored :
      FailureCode
  -- `${failureCode}_RESTORED`.
  code_restored : FailureCode → FailureCode
  publisher_process_interrupted publication_recovery_reconciled studio_finalization_retry
        post_promotion_verification :
      FailureCode

pub record PublicationJob : Type 0 where
  pub id : Uuid
  pub publication_id : Uuid
  pub situation_id : Uuid
  pub target_revision_id : Uuid
  pub checkout_id : Uuid
  pub checkout_fence : ℕ
  pub state : PublicationState
  pub preflight_receipt_id : Option Uuid
  pub base_manifest_hash : Option Digest
  pub expected_pointer_generation : Option ℕ
  pub observed_release_id : Option Uuid
  pub leadership_release_id : Option Uuid
  pub leadership_manifest_hash : Option Digest
  pub previous_release_id : Option Uuid
  pub claim_token : Option Uuid
  pub lease_expires_at : Option Millis
  pub created_at : Millis
  pub started_at : Option Millis
  pub finished_at : Option Millis
  pub failure_code : Option FailureCode

pub data EventKind : Type 0 where
  pointer_observed conflicted snapshot_built validated release_inserted pointer_advanced verified
        restore_started restored recovery_required succeeded failed :
      EventKind

-- A value in a payload: a uuid or a digest counts as a number, a key that is left out as `absent`.
pub data Scalar : Type 0 where
  absent : Scalar
  flag : Bool → Scalar
  number : ℕ → Scalar
  text : String → Scalar

-- The payload's values in the order of its keys, which the kind determines.
pub record PublicationEvent : Type 0 where
  pub job_id : Uuid
  pub sequence : ℕ
  pub kind : EventKind
  pub payload : List Scalar

-- The `outcome` or the flags of `reconciledState`.
pub data ReconciledState : Type 0 where
  interrupted_before_retry : (superseded_by_attempt : ℕ) → ReconciledState
  needs_refresh succeeded reconciled_after_runtime_convergence : ReconciledState
  restoration_suppressed : FailureCode → ReconciledState
  outcome_of :
      FailureCode
      → (promoted promotion_attempted promotion_state_unverified : Bool) → ReconciledState

pub record PublicationAttempt : Type 0 where
  pub id : Uuid
  pub job_id : Uuid
  pub attempt : ℕ
  pub finished_at : Option Millis
  pub failure_code : Option FailureCode
  pub reconciled_state : Option ReconciledState

pub record ReleaseObservation : Type 0 where
  pub id : Uuid
  pub release_id : Uuid
  pub manifest_hash : Digest
  pub pointer_generation : Option ℕ

pub record ProductionVersion : Type 0 where
  pub situation_id : Uuid
  pub observation_id : Uuid
  pub bundle_hash : Digest
  pub production_at : Millis

pub record VerificationReceipt : Type 0 where
  pub job_id : Uuid
  pub expected_release_id : Uuid
  pub expected_manifest_hash : Digest
  pub observed_runtime_release_id : Uuid
  pub observed_runtime_hash : Digest
  pub pointer_generation : ℕ

-- `activePublicationStates`.
abbrev pub publication_is_active : PublicationState → Bool
publication_is_active PublicationState.requested = true
publication_is_active PublicationState.assembling = true
publication_is_active PublicationState.promoting = true
publication_is_active PublicationState.verifying = true
publication_is_active _ = false

abbrev pub needs_recovery : PublicationState → Bool
needs_recovery PublicationState.recovery_required = true
needs_recovery _ = false
