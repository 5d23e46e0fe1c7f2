-- ===== src/Publisher/Failure.antt =====
-- What a publication can throw, and the code that is recorded for it (`publicationFailureCode` and
-- `restoredPublicationFailureCode` of apps/publisher/src/index.ts).
use situation_studio.Prelude.{String, Bool, if◌then◌else◌}
use situation_studio.Store.{FailureCode}

-- The classes that carry a code, a `ZodError`, and any other `Error` with its message.
pub data PublisherError : Type 0 where
  candidate_contract runtime_convergence : (code : FailureCode) → PublisherError
  capability verification : (code : FailureCode) (retryable : Bool) → PublisherError
  zod_error : PublisherError
  error : (message : String) → PublisherError

pub data MessagePattern : Type 0 where
  preflight_required practice_embed prepared_action typed_projection_invalid authority :
      MessagePattern

-- The engine of regular expressions is not the program's.
abbrev pub Matcher : Type 0
Matcher = MessagePattern → String → Bool

-- `new PublisherCandidateContractError(new Error(detail))`.
unfoldable pub candidate_contract_error : Matcher → String → PublisherError
candidate_contract_error test detail = candidate_contract (
    if test preflight_required detail
    then FailureCode.preflight_required
    else if test practice_embed detail
    then FailureCode.practice_embed_mismatch
    else if test prepared_action detail
    then FailureCode.prepared_action_mismatch
    else FailureCode.canonical_snapshot_invalid)

unfoldable pub publication_failure_code : Matcher → PublisherError → FailureCode
publication_failure_code test (capability code retryable) = code
publication_failure_code test (candidate_contract code) = code
publication_failure_code test (runtime_convergence code) = code
publication_failure_code test (verification code retryable) = code
publication_failure_code test zod_error = FailureCode.canonical_snapshot_invalid
publication_failure_code test (error message) =
    if test typed_projection_invalid message
    then FailureCode.typed_projection_invalid
    else if test authority message
    then FailureCode.publication_authority_lost
    else FailureCode.publication_failed

unfoldable pub restored_publication_failure_code : FailureCode → FailureCode
restored_publication_failure_code FailureCode.affected_route_verification_failed =
    FailureCode.code_restored FailureCode.affected_route_verification_failed
restored_publication_failure_code FailureCode.runtime_health_unavailable =
    FailureCode.code_restored FailureCode.runtime_health_unavailable
restored_publication_failure_code FailureCode.runtime_health_invalid_response =
    FailureCode.code_restored FailureCode.runtime_health_invalid_response
restored_publication_failure_code FailureCode.runtime_identity_mismatch =
    FailureCode.code_restored FailureCode.runtime_identity_mismatch
restored_publication_failure_code FailureCode.runtime_capability_unavailable =
    FailureCode.code_restored FailureCode.runtime_capability_unavailable
restored_publication_failure_code FailureCode.unsupported_version_pair =
    FailureCode.code_restored FailureCode.unsupported_version_pair
restored_publication_failure_code FailureCode.unsupported_contract_identity =
    FailureCode.code_restored FailureCode.unsupported_contract_identity
restored_publication_failure_code _ = FailureCode.verification_failed_restored

abbrev pub lease_lost : PublisherError
lease_lost = error "Publication lease was lost to another publisher."

abbrev pub authority_fenced : PublisherError
authority_fenced = error "Publication authority was fenced by a newer checkout."
