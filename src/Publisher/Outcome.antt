-- ===== src/Publisher/Outcome.antt =====
-- How a publication ends, or begins to be restored: `terminalizePublicationOutcome` and
-- `beginAutomaticRestoration` of apps/publisher/src/index.ts.
use situation_studio.Prelude.{
  Bool, true, false, Option, none, some, List, Uuid, Millis, ◌==◌, if◌then◌else◌,
}
use situation_studio.Prelude.Rows.{update_many, count}
use situation_studio.Prelude.Results.{Result, ok, err, ◌>>=◌}
use situation_studio.Store.{
  PublicationJob, PublicationState, PublicationAttempt, FailureCode, EventKind, Scalar,
  ReconciledState,
}
use situation_studio.Publisher.Tables.{Studio}
use situation_studio.Publisher.Failure.{PublisherError, error}
use situation_studio.Publisher.Events.{append_publication_event}
use situation_studio.Publisher.Lease.{owned_update}
use situation_studio.Publisher.Attempts.{finish_attempt}

-- The argument of `terminalizePublicationOutcome`, of which no caller sets `observedReleaseId` or
-- `expectedPointerGeneration`.
pub record Terminal : Type 0 where
  pub job_id : Uuid
  pub attempt_id : Uuid
  pub state : PublicationState
  pub job_failure_code : FailureCode
  pub finish_job : Bool
  pub event_kind : EventKind
  pub event_payload : List Scalar
  pub attempt_failure_code : Option FailureCode
  pub reconciled_state : ReconciledState
  pub claim_token : Uuid
  pub expected_states : PublicationState → Bool

abbrev pub record_terminal : Millis → Terminal → PublicationJob → PublicationJob
record_terminal now t j = record j {
  state = t.state;
  finished_at = if t.finish_job then some now else j.finished_at;
  failure_code = some t.job_failure_code;
  claim_token = none;
  lease_expires_at = none;
}

-- `publicationAttempt.update`, which throws where the row is missing.
unfoldable pub update_attempt :
    Uuid → (PublicationAttempt → PublicationAttempt) → Studio → Result PublisherError Studio
update_attempt id write s =
    if count (λ a. a.id == id) s.attempts == 0
    then err (error "Record to update not found.")
    else ok (record s { attempts = update_many (λ a. a.id == id) write s.attempts })

abbrev pub authority_lost_at_end : PublisherError
authority_lost_at_end =
    error "Publication authority was lost before terminal state could be recorded."

unfoldable pub terminalize_publication_outcome :
    Millis → Terminal → Studio → Result PublisherError Studio
terminalize_publication_outcome now t s = do
  owned ←
      owned_update authority_lost_at_end t.job_id t.claim_token t.expected_states
        (record_terminal now t) s
  update_attempt t.attempt_id (finish_attempt now t.attempt_failure_code t.reconciled_state)
      (append_publication_event t.job_id t.event_kind t.event_payload owned)

abbrev pub is_promoting_or_verifying : PublicationState → Bool
is_promoting_or_verifying PublicationState.promoting = true
is_promoting_or_verifying PublicationState.verifying = true
is_promoting_or_verifying _ = false

abbrev pub begin_recovery : PublicationJob → PublicationJob
begin_recovery j = record j {
  state = PublicationState.recovery_required;
  failure_code = some FailureCode.automatic_restoration_in_progress;
}

abbrev pub restoration_refused : PublisherError
restoration_refused = error "Publication authority was lost before restoration could begin."

unfoldable pub begin_automatic_restoration :
    Uuid → Uuid → List Scalar → Studio → Result PublisherError Studio
begin_automatic_restoration job_id token payload s = do
  owned ← owned_update restoration_refused job_id token is_promoting_or_verifying begin_recovery s
  ok (append_publication_event job_id EventKind.restore_started payload owned)
