-- ===== src/Store/Review.antt =====
-- Review jobs, their steps and the runs of a step, with the codes of a failure.
use situation_studio.Prelude.{Uuid, Digest, Millis, ℕ, String, Bool, true, false, Option, List}

pub data JobState : Type 0 where
  queued running succeeded failed cancelled : JobState

pub data StepState : Type 0 where
  pending ready running succeeded failed cancelled : StepState

-- `AdapterFailure.failureClass`.
pub data FailureClass : Type 0 where
  capacity transient authentication invalid_output application cancelled : FailureClass

-- The failure class that a run stores.
pub data AgentFailureClass : Type 0 where
  provider_capacity provider_transient provider_auth output_invalid application cancelled :
      AgentFailureClass

-- `reviewFailurePhases`.
pub data FailurePhase : Type 0 where
  run_stage build_evidence validate_input validate_candidate materialize_proposal : FailurePhase

-- `reviewFailureReasonCodes`.
pub data ReasonCode : Type 0 where
  provider_capacity provider_transient provider_authentication provider_output_invalid : ReasonCode
  candidate_metadata_json_invalid candidate_output_invalid : ReasonCode
  candidate_finding_reference_invalid candidate_audit_revise : ReasonCode
  proposal_materialization_failed review_evidence_build_failed : ReasonCode
  review_input_validation_failed review_job_deadline_exceeded review_application_failed : ReasonCode

pub record ReviewStep : Type 0 where
  pub id : Uuid
  pub ordinal : ℕ
  pub role_code : String
  pub dependencies : List String
  pub state : StepState
  pub output_hash : Option Digest
  pub started_at : Option Millis
  pub finished_at : Option Millis

-- A job with its own steps in the order of their ordinals.
pub record ReviewJob : Type 0 where
  pub id : Uuid
  pub situation_id : Uuid
  pub input_revision_id : Uuid
  pub input_bundle_hash : Digest
  pub checkout_id : Uuid
  pub checkout_fence : ℕ
  pub fence : ℕ
  pub state : JobState
  pub context_hash : Digest
  pub contract_version : String
  pub policy_version : String
  pub queued_at : Millis
  pub started_at : Option Millis
  pub finished_at : Option Millis
  pub lane_owner : Bool
  pub claim_token : Option Uuid
  pub lease_expires_at : Option Millis
  pub retry_not_before : Option Millis
  pub cancelled_at : Option Millis
  pub cancelled_by_id : Option Uuid
  pub cancellation_reason : Option String
  pub failure_code : Option FailureClass
  pub failure_reason_code : Option ReasonCode
  pub failure_phase : Option FailurePhase
  pub failure_stage_ordinal : Option ℕ
  pub failure_stage_role : Option String
  pub steps : List ReviewStep

pub record AgentRun : Type 0 where
  pub id : Uuid
  pub step_id : Uuid
  pub attempt : ℕ
  pub requested_provider : String
  pub requested_model : String
  pub output_hash : Option Digest
  pub failure_class : Option AgentFailureClass
  pub retryable : Option Bool
  pub started_at : Millis
  pub finished_at : Option Millis

-- The lists of states that the queries name, as tests.
abbrev pub is_queued : JobState → Bool
is_queued JobState.queued = true
is_queued _ = false

abbrev pub is_running : JobState → Bool
is_running JobState.running = true
is_running _ = false

abbrev pub is_failed : JobState → Bool
is_failed JobState.failed = true
is_failed _ = false

-- `["QUEUED", "RUNNING"]`.
abbrev pub is_active : JobState → Bool
is_active JobState.queued = true
is_active JobState.running = true
is_active _ = false

-- `["QUEUED", "RUNNING", "FAILED"]`.
abbrev pub is_unresolved : JobState → Bool
is_unresolved JobState.failed = true
is_unresolved s = is_active s

abbrev pub step_is_pending : StepState → Bool
step_is_pending StepState.pending = true
step_is_pending _ = false

abbrev pub step_is_ready : StepState → Bool
step_is_ready StepState.ready = true
step_is_ready _ = false

abbrev pub step_is_running : StepState → Bool
step_is_running StepState.running = true
step_is_running _ = false

abbrev pub step_is_succeeded : StepState → Bool
step_is_succeeded StepState.succeeded = true
step_is_succeeded _ = false

abbrev pub step_is_failed : StepState → Bool
step_is_failed StepState.failed = true
step_is_failed _ = false

abbrev pub step_is_cancelled : StepState → Bool
step_is_cancelled StepState.cancelled = true
step_is_cancelled _ = false

-- `["PENDING", "READY", "RUNNING", "FAILED"]`.
abbrev pub step_is_stoppable : StepState → Bool
step_is_stoppable StepState.succeeded = false
step_is_stoppable StepState.cancelled = false
step_is_stoppable _ = true

-- `["READY", "RUNNING", "SUCCEEDED"]`.
abbrev pub step_has_begun : StepState → Bool
step_has_begun StepState.ready = true
step_has_begun StepState.running = true
step_has_begun StepState.succeeded = true
step_has_begun _ = false
