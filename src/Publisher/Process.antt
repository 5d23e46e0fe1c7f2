-- ===== src/Publisher/Process.antt =====
-- One run of the publisher with its `catch` clause: `processPublicationJob` of
-- apps/publisher/src/index.ts.
use situation_studio.Prelude.{
  Bool, true, false, ◌&&◌, not, Option, none, some, List, [], ◌∷◌, Uuid, String, ◌==◌,
  if◌then◌else◌,
}
use situation_studio.Prelude.Rows.{find_first}
use situation_studio.Prelude.Results.{ok}
use situation_studio.Store.{
  PublicationJob, PublicationState, FailureCode, EventKind, Scalar, absent, number, text,
  ReconciledState, restoration_suppressed, outcome_of, VerificationReceipt, publication_is_active,
  needs_recovery,
}
use situation_studio.Publisher.Tables.{Studio, Candidate, publications}
use situation_studio.Publisher.Failure.{
  PublisherError, error, publication_failure_code, restored_publication_failure_code,
}
use situation_studio.Publisher.Lease.{claimed_job_update, is_verifying, drop_claim}
use situation_studio.Publisher.Attempts.{finish_attempt}
use situation_studio.Publisher.Outcome.{
  Terminal, update_attempt, terminalize_publication_outcome, begin_automatic_restoration,
}
use situation_studio.Publisher.Identity.{Identity, database_identity}
use situation_studio.Publisher.Action.{
  World, Progress, Action, ◌>>=◌, ◌>>◌, give, try_catch, query, transaction, write, require_that,
}
use situation_studio.Publisher.Promotion.{renew, commit}
use situation_studio.Publisher.Probing.{converged_runtime_identity}
use situation_studio.Publisher.Steps.{
  Ending, succeeded, finalization_retry, restored, recovery_required, failed, Claimed, set_promoted,
  set_known, connect, reconcile, load_job, begin,
}
use situation_studio.Publisher.Course.{course}

-- The variables of the run.
unfoldable pub variables : Action Progress
variables p = (ok p, p)

abbrev is_succeeded : PublicationState → Bool
is_succeeded PublicationState.succeeded = true
is_succeeded _ = false

abbrev job_succeeded : Option PublicationJob → Bool
job_succeeded none = false
job_succeeded (some j) = is_succeeded j.state

abbrev receipt_matches : Option VerificationReceipt → Option Candidate → Bool
receipt_matches (some r) (some c) =
    r.expected_release_id == c.release_id && r.expected_manifest_hash == c.manifest_hash
receipt_matches _ _ = false

-- The success is recorded after all, although its answer was lost.
unfoldable pub was_finalized : Uuid → Option Candidate → Studio → Bool
was_finalized job_id c s =
    job_succeeded (find_first (λ j. j.id == job_id) (publications s))
    && receipt_matches (find_first (λ r. r.job_id == job_id) s.receipts) c

-- What the three ends of a failed run share.
abbrev pub terminal_of :
    Claimed
    → PublicationState
    → FailureCode
    → Bool
    → EventKind
    → List Scalar
    → FailureCode
    → ReconciledState
    → (PublicationState → Bool)
    → Terminal
terminal_of r state code finish kind payload attempt_code reconciled expected = record {
  job_id = r.job.id;
  attempt_id = r.attempt_id;
  state = state;
  job_failure_code = code;
  finish_job = finish;
  event_kind = kind;
  event_payload = payload;
  attempt_failure_code = some attempt_code;
  reconciled_state = reconciled;
  claim_token = r.token;
  expected_states = expected;
}

module _ (world : World) (code_text : FailureCode → String) (r : Claimed) where
  unfoldable pub terminalize : Terminal → Ending → Action Ending
  terminalize t ending =
      write world (λ now s. terminalize_publication_outcome now t s) >> give ending

  -- The runtime shows the candidate: nothing is restored, and the finalization is tried again later.
  unfoldable pub retry_finalization : FailureCode → Option Candidate → Action Ending
  retry_finalization code c = do
    finalized ← transaction world (λ now s. ok (was_finalized r.job.id c s, s))
    if finalized then give succeeded else (do
      try_catch
          (write world (λ now s. claimed_job_update r.job.id r.token is_verifying drop_claim s))
          (λ _. give tt)
      write world (λ now s.
          update_attempt r.attempt_id
            (finish_attempt now (some FailureCode.studio_finalization_retry)
              (restoration_suppressed code))
            s)
      give finalization_retry)

  -- Whether Leadership had the promotion, when the run does not know.
  abbrev pub settle_with : Bool → Option Candidate → Action (Unit {0})
  settle_with true (some c) =
      try_catch (do promoted ← reconcile world c; set_promoted promoted; set_known true)
        (λ _. set_known false)
  settle_with _ _ = give tt

  unfoldable pub settle_promotion : Action (Unit {0})
  settle_promotion = do
    p ← variables
    settle_with (p.promotion_attempted && not p.promotion_state_known) p.active_candidate

  abbrev pub candidate_or_persisted : Option Candidate → PublicationJob → Action Candidate
  candidate_or_persisted none job = query world (world.candidate_from_persisted job)
  candidate_or_persisted (some c) job = give c

  -- The previous release back in Leadership, and the running application on it.
  unfoldable pub restore_previous : Option Candidate → PublicationJob → Action Identity
  restore_previous active job = do
    connect world
    current ← query world database_identity
    c ← candidate_or_persisted active job
    l ← query world (world.restore_release c current.generation)
    commit world l
    previous ← query world database_identity
    runtime ←
        converged_runtime_identity world (renew world r.job.id r.token)
          (λ i. i.release_id == previous.release_id && i.manifest_hash == previous.manifest_hash)
    require_that
        (previous.release_id == c.parent_release_id
          && runtime.release_id == c.parent_release_id
          && previous.manifest_hash == runtime.manifest_hash)
        (error "Prior official release could not be verified.")
    give previous

  unfoldable pub end_restored : FailureCode → ReconciledState → Identity → Action Ending
  end_restored code reconciled i =
      terminalize
        (terminal_of r PublicationState.restored (restored_publication_failure_code code) true
          EventKind.restored
          (number i.generation ∷ number i.manifest_hash ∷ number i.release_id ∷ [])
          FailureCode.post_promotion_verification reconciled needs_recovery)
        restored

  unfoldable pub end_unrestored : ReconciledState → Action Ending
  end_unrestored reconciled =
      terminalize
        (terminal_of r PublicationState.recovery_required FailureCode.automatic_restoration_failed
          false EventKind.recovery_required
          (text (code_text FailureCode.automatic_restoration_failed) ∷ [])
          FailureCode.post_promotion_verification reconciled needs_recovery)
        recovery_required

  unfoldable pub end_unverified : ReconciledState → Action Ending
  end_unverified reconciled =
      terminalize
        (terminal_of r PublicationState.recovery_required FailureCode.promotion_state_unverified
          false EventKind.recovery_required
          (text (code_text FailureCode.promotion_state_unverified) ∷ [])
          FailureCode.promotion_state_unverified reconciled publication_is_active)
        recovery_required

  unfoldable pub end_failed : FailureCode → ReconciledState → Action Ending
  end_failed code reconciled =
      terminalize
        (terminal_of r PublicationState.failed code true EventKind.failed
          (text (code_text code) ∷ []) code reconciled publication_is_active)
        failed

  abbrev pub previous_release : Option Uuid → Scalar
  previous_release none = absent
  previous_release (some id) = number id

  unfoldable pub attempted_restore : Option Candidate → PublicationJob → Action (Option Identity)
  attempted_restore active job =
      try_catch (restore_previous active job >>= λ i. give (some i)) (λ _. give none)

  abbrev pub conclude : FailureCode → ReconciledState → Option Identity → Action Ending
  conclude code reconciled (some i) = end_restored code reconciled i
  conclude code reconciled none = end_unrestored reconciled

  unfoldable pub restore : FailureCode → ReconciledState → Option Candidate → Action Ending
  restore code reconciled active = do
    job ← load_job world r.job.id
    write world (λ now s.
        begin_automatic_restoration r.job.id r.token
          (previous_release job.previous_release_id ∷ text (code_text code) ∷ []) s)
    attempted_restore active job >>= conclude code reconciled

  -- With the variables as they stand.
  abbrev pub end_with : FailureCode → Progress → Action Ending
  end_with code p =
      if p.promoted
      then restore code
          (outcome_of code p.promoted p.promotion_attempted
            (p.promotion_attempted && not p.promoted && not p.promotion_state_known))
          p.active_candidate
      else if p.promotion_attempted && not p.promotion_state_known
      then end_unverified (outcome_of code p.promoted p.promotion_attempted true)
      else end_failed code (outcome_of code p.promoted p.promotion_attempted false)

  unfoldable pub settle_and_end : FailureCode → Action Ending
  settle_and_end code = do settle_promotion; p ← variables; end_with code p

  -- The `catch` clause.
  unfoldable pub handle : PublisherError → Action Ending
  handle e = do
    p ← variables
    if p.runtime_verified
        then retry_finalization (publication_failure_code world.test e) p.active_candidate
        else settle_and_end (publication_failure_code world.test e)

-- `processPublicationJob`.
unfoldable pub process_publication_job :
    World → (FailureCode → String) → Uuid → Uuid → Action Ending
process_publication_job world code_text job_id token = do
  r ← begin world job_id token
  try_catch (course world r) (handle world code_text r)
