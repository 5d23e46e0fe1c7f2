-- ===== src/Publisher/Steps.antt =====
-- The steps of a publisher's run that only write Studio's tables, and the reads of Leadership
-- (`processPublicationJob` of apps/publisher/src/index.ts, up to the promotion).
use situation_studio.Prelude.{
  ℕ, Bool, true, false, ◌&&◌, ◌||◌, not, Option, none, some, List, [], ◌∷◌, Uuid, Millis, ◌==◌,
  holds, is_some, if◌then◌else◌,
}
use situation_studio.Prelude.Rows.{find_first}
use situation_studio.Prelude.Results.{Result, ok, err}
use situation_studio.Store.{
  PublicationJob, PublicationState, PublicationAttempt, FailureCode, EventKind, Scalar, absent,
  flag, number, ReconciledState,
}
use situation_studio.Publisher.Tables.{Studio, Candidate, publications}
use situation_studio.Publisher.Failure.{PublisherError, error, candidate_contract_error, lease_lost}
use situation_studio.Publisher.Lease.{
  claimed_event, claimed_job_update, claimed_transition_with_event, is_working, is_verifying,
  is_assembling_or_promoting, extend_lease, owned_update,
}
use situation_studio.Publisher.Attempts.{start_publication_attempt, finish_attempt}
use situation_studio.Publisher.Outcome.{update_attempt, is_promoting_or_verifying}
use situation_studio.Publisher.Identity.{Identity, reconcile_ambiguous_promotion}
use situation_studio.Publisher.Action.{
  World, Action, ◌>>=◌, ◌>>◌, give, query, transaction, write, require_that,
}
use situation_studio.Publisher.Promotion.{renew}
use situation_studio.Publisher.Probing.{ask}

-- Where the source returns, the branch that it took.
pub data Ending : Type 0 where
  succeeded needs_refresh finalization_retry restored recovery_required failed : Ending

-- The job as it was loaded, with the attempt and the claim of the run.
pub record Claimed : Type 0 where
  pub job : PublicationJob
  pub attempt_id : Uuid
  pub token : Uuid

unfoldable pub set_promoted : Bool → Action (Unit {0})
set_promoted b p = (ok tt, record p { promoted = b })

-- `promotionAttempted = true; promotionStateKnown = false`.
unfoldable pub set_attempted : Action (Unit {0})
set_attempted p = (ok tt, record p { promotion_attempted = true; promotion_state_known = false })

unfoldable pub set_known : Bool → Action (Unit {0})
set_known b p = (ok tt, record p { promotion_state_known = b })

unfoldable pub set_verified : Action (Unit {0})
set_verified p = (ok tt, record p { runtime_verified = true })

unfoldable pub set_candidate : Candidate → Action (Unit {0})
set_candidate c p = (ok tt, record p { active_candidate = some c })

abbrev pub optional : Option ℕ → Scalar
optional none = absent
optional (some n) = number n

abbrev pub found_job :
    Studio → Option PublicationJob → Result PublisherError (PublicationJob × Studio)
found_job s none = err (error "No PublicationJob found")
found_job s (some j) = ok (j, s)

-- The pointer is neither the candidate nor the base that the preflight saw.
unfoldable pub base_changed : PublicationJob → Candidate → Identity → Bool
base_changed job c before =
    not (before.release_id == c.release_id)
    && (not (before.release_id == c.parent_release_id)
        || (is_some job.preflight_receipt_id
            && not (holds job.base_manifest_hash before.manifest_hash))
        || not (before.generation == c.expected_generation))

abbrev pub need_refresh : Millis → Uuid → PublicationJob → PublicationJob
need_refresh now observed j = record j {
  state = PublicationState.needs_refresh;
  observed_release_id = some observed;
  failure_code = some FailureCode.preflight_base_changed;
  finished_at = some now;
  claim_token = none;
  lease_expires_at = none;
}

abbrev pub promote_state : Candidate → PublicationJob → PublicationJob
promote_state c j = record j {
  state = PublicationState.promoting;
  observed_release_id = some c.parent_release_id;
  expected_pointer_generation = some c.expected_generation;
  leadership_release_id = some c.release_id;
  leadership_manifest_hash = some c.manifest_hash;
  previous_release_id = some c.parent_release_id;
}

module _ (world : World) where
  -- A connection to Leadership.
  unfoldable pub connect : Action (Unit {0})
  connect = query world (λ l. ok tt)

  unfoldable pub reconcile : Candidate → Action Bool
  reconcile c = query world (reconcile_ambiguous_promotion world.test c)

  unfoldable pub load_job : Uuid → Action PublicationJob
  load_job job_id =
      transaction world (λ now s. found_job s (find_first (λ j. j.id == job_id) (publications s)))

  -- The lease that `persistReceiptBackedCandidateSnapshot` extends; its row is not modelled.
  unfoldable pub persist_snapshot : Claimed → Candidate → Action (Unit {0})
  persist_snapshot r c =
      if is_some r.job.preflight_receipt_id
      then require_that c.sealed (
          candidate_contract_error world.test
            "The receipt-backed publisher candidate lacks exact snapshot evidence.")
        >> write world
            (λ now s. owned_update lease_lost r.job.id r.token is_working (extend_lease now) s)
      else give tt

  unfoldable pub report : Claimed → EventKind → List Scalar → Action (Unit {0})
  report r kind payload = write world (λ now s. claimed_event now r.job.id r.token kind payload s)

  -- Of a job that was promoting or verifying: whether Leadership had the promotion.
  unfoldable pub resume_promotion : Claimed → Candidate → Action (Unit {0})
  resume_promotion r c =
      if is_promoting_or_verifying r.job.state
      then (do set_attempted; promoted ← reconcile c; set_known true; set_promoted promoted)
      else give tt

  unfoldable pub announce : Claimed → Candidate → Action (Unit {0})
  announce r c = do
    report r EventKind.snapshot_built (
        number c.artifact_count
        ∷ optional c.candidate_hash
        ∷ number c.edge_count
        ∷ flag c.sealed
        ∷ number c.manifest_hash
        ∷ optional r.job.preflight_receipt_id
        ∷ number c.release_id
        ∷ [])
    report r EventKind.validated (
        optional c.candidate_hash
        ∷ optional c.compiler_digest
        ∷ number c.manifest_hash
        ∷ number r.job.target_revision_id
        ∷ [])

  unfoldable pub refresh : Claimed → Candidate → Identity → Action Ending
  refresh r c observed = do
    write world (λ now s.
        claimed_transition_with_event r.job.id r.token (need_refresh now observed.release_id)
          EventKind.conflicted
          (optional c.candidate_hash
            ∷ number c.expected_generation
            ∷ number c.parent_release_id
            ∷ number observed.generation
            ∷ number observed.manifest_hash
            ∷ number observed.release_id
            ∷ [])
          s)
    write world (λ now s.
        update_attempt r.attempt_id (finish_attempt now none ReconciledState.needs_refresh) s)
    give needs_refresh

  unfoldable pub mark_promoting : Claimed → Candidate → Action (Unit {0})
  mark_promoting r c =
      if is_verifying r.job.state
      then give tt
      else write world (λ now s.
        claimed_job_update r.job.id r.token is_assembling_or_promoting (promote_state c) s)

abbrev pub claimed_of :
    Uuid
    → Result PublisherError (PublicationJob × PublicationAttempt × Studio)
    → Result PublisherError (Claimed × Studio)
claimed_of token (err e) = err e
claimed_of token (ok (job, attempt, s)) =
    ok (record { job = job; attempt_id = attempt.id; token = token }, s)

-- The lease is renewed and an attempt started; before that, an error is thrown to the caller.
unfoldable pub begin : World → Uuid → Uuid → Action Claimed
begin world job_id token = do
  renew world job_id token
  id ← ask world.fresh_id
  transaction world (λ now s. claimed_of token (start_publication_attempt now id job_id token s))
