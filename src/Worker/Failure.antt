-- ===== src/Worker/Failure.antt =====
-- What can go wrong in a review stage, how a failure is classified, and whether it is tried again
-- (apps/review-worker/src/review.ts, packages/ai-adapters/src/index.ts).
use situation_studio.Prelude.{
  ℕ, zero, suc, String, Bool, true, false, ◌&&◌, Option, none, some, List, [], ◌∷◌, Millis, ltb,
  if◌then◌else◌, get_elem?,
}
use situation_studio.Prelude.Results.{Result, ok, err}
use situation_studio.Store.{
  FailureClass, capacity, transient, authentication, invalid_output, AgentFailureClass,
  FailurePhase, run_stage, build_evidence, validate_input, validate_candidate, materialize_proposal,
  ReasonCode,
}

-- `AdapterFailure`.
pub record AdapterFailure : Type 0 where
  pub failure_class : FailureClass
  pub message : String
  pub retryable : Bool

-- What a `catch` clause receives: an `AdapterFailure`, another `Error`, or a value that is neither.
pub data Thrown : Type 0 where
  adapter : AdapterFailure → Thrown
  error : String → Thrown
  value : Thrown

-- What the worker's own functions throw to their caller.
pub data WorkerError : Type 0 where
  bad_lease_duration bad_retry_delays row_missing unique_violation invalid_metadata : WorkerError
  failure : AdapterFailure → WorkerError

-- `ReviewWorkerTiming`, with the time of the call; the durations are whole numbers.
pub record Timing : Type 0 where
  pub now : Millis
  pub lease_duration_ms : Option Millis
  pub retry_delays_ms : Option (List Millis)

abbrev pub review_stage_max_attempts : ℕ
review_stage_max_attempts = 3

abbrev pub review_max_repair_attempts : ℕ
review_max_repair_attempts = 1

abbrev pub default_lease_duration_ms : Millis
default_lease_duration_ms = 120_000

abbrev pub max_retry_delay_ms : Millis
max_retry_delay_ms = 300_000

abbrev pub default_review_retry_delays_ms : List Millis
default_review_retry_delays_ms = 5_000 ∷ 30_000 ∷ []

abbrev pub or_else {ℓ} : {A : Type ℓ} → Option A → A → A
or_else none d = d
or_else (some a) d = a

unfoldable pub lease_duration_ms : Timing → Result WorkerError Millis
lease_duration_ms timing =
    let duration = or_else timing.lease_duration_ms default_lease_duration_ms in
    if ltb 0 duration then ok duration else err bad_lease_duration

abbrev bounded_delay : Option Millis → Result WorkerError Millis
bounded_delay none = err bad_retry_delays
bounded_delay (some delay) = if ltb max_retry_delay_ms delay then err bad_retry_delays else ok delay

-- `delays[attempt - 1]` is undefined at attempt 0 and past the end.
unfoldable pub retry_delay_ms : ℕ → Timing → Result WorkerError Millis
retry_delay_ms zero timing = err bad_retry_delays
retry_delay_ms (suc index) timing =
    bounded_delay (get_elem? (or_else timing.retry_delays_ms default_review_retry_delays_ms) index)

-- `failureClass`
unfoldable pub agent_failure_class : FailureClass → AgentFailureClass
agent_failure_class capacity = AgentFailureClass.provider_capacity
agent_failure_class transient = AgentFailureClass.provider_transient
agent_failure_class authentication = AgentFailureClass.provider_auth
agent_failure_class invalid_output = AgentFailureClass.output_invalid
agent_failure_class FailureClass.application = AgentFailureClass.application
agent_failure_class FailureClass.cancelled = AgentFailureClass.cancelled

abbrev pub is_provider_class : FailureClass → Bool
is_provider_class capacity = true
is_provider_class transient = true
is_provider_class invalid_output = true
is_provider_class _ = false

unfoldable pub is_retryable_provider_failure : AdapterFailure → Bool
is_retryable_provider_failure e = e.retryable && is_provider_class e.failure_class

-- The four regular expressions that `failureReasonCode` tests, in its order.
pub data MessagePattern : Type 0 where
  total_review_deadline audit_requires_revision metadata_not_json missing_finding : MessagePattern

-- The engine of regular expressions is not the program's.
abbrev pub Matcher : Type 0
Matcher = MessagePattern → String → Bool

abbrev reason_of_class : FailureClass → ReasonCode
reason_of_class capacity = ReasonCode.provider_capacity
reason_of_class transient = ReasonCode.provider_transient
reason_of_class authentication = ReasonCode.provider_authentication
reason_of_class invalid_output = ReasonCode.provider_output_invalid
reason_of_class FailureClass.application = ReasonCode.review_application_failed
reason_of_class FailureClass.cancelled = ReasonCode.review_application_failed

abbrev reason_of_phase : FailurePhase → FailureClass → ReasonCode
reason_of_phase build_evidence c = ReasonCode.review_evidence_build_failed
reason_of_phase validate_input c = ReasonCode.review_input_validation_failed
reason_of_phase validate_candidate c = ReasonCode.candidate_output_invalid
reason_of_phase materialize_proposal c = ReasonCode.proposal_materialization_failed
reason_of_phase run_stage c = reason_of_class c

unfoldable pub failure_reason_code : Matcher → AdapterFailure → FailurePhase → ReasonCode
failure_reason_code test e phase =
    if test total_review_deadline e.message
    then ReasonCode.review_job_deadline_exceeded
    else if test audit_requires_revision e.message
    then ReasonCode.candidate_audit_revise
    else if test metadata_not_json e.message
    then ReasonCode.candidate_metadata_json_invalid
    else if test missing_finding e.message
    then ReasonCode.candidate_finding_reference_invalid
    else reason_of_phase phase e.failure_class
