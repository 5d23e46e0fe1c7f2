-- ===== src/Publisher/Course.antt =====
-- The course of a publisher's run from the candidate to the recorded success, as
-- `processPublicationJob` of apps/publisher/src/index.ts takes it inside its `try`. The hooks of the
-- source's tests (`afterBoundary`, `afterPromotionCommit`) are left out.
use situation_studio.Prelude.{
  true, false, ◌&&◌, Option, none, some, [], ◌∷◌, Millis, ◌==◌, holds, if◌then◌else◌,
}
use situation_studio.Prelude.Results.{ok}
use situation_studio.Store.{PublicationJob, PublicationState, FailureCode, EventKind, flag, number}
use situation_studio.Publisher.Tables.{Candidate, Release}
use situation_studio.Publisher.Failure.{
  PublisherError, error, capability, candidate_contract_error, lease_lost,
}
use situation_studio.Publisher.Lease.{claimed_job_update, is_working, extend_lease}
use situation_studio.Publisher.Identity.{
  Identity, database_identity, identity_matches, find_release, is_release_of,
}
use situation_studio.Publisher.Action.{
  World, Action, Capabilities, RouteProof, ◌>>=◌, ◌>>◌, give, try_catch, query, write, require_that,
}
use situation_studio.Publisher.Promotion.{Insertion, renew, assert_fence, insert_and_promote}
use situation_studio.Publisher.Probing.{
  ask, converged_runtime_identity, converged_runtime_capabilities, converged_runtime_route_proof,
}
use situation_studio.Publisher.Finalize.{finalize_success}
use situation_studio.Publisher.Steps.{
  Ending, succeeded, Claimed, set_promoted, set_attempted, set_known, set_verified, set_candidate,
  connect, reconcile, load_job, persist_snapshot, report, resume_promotion, base_changed, announce,
  refresh, mark_promoting,
}

abbrev pub mark_verifying : Millis → PublicationJob → PublicationJob
mark_verifying now j = record j {
  state = PublicationState.verifying;
  lease_expires_at = (extend_lease now j).lease_expires_at;
}

module _ (world : World) where
  -- The release that Leadership may already have for the publication.
  abbrev pub check_release : Candidate → Option Release → Action (Unit {0})
  check_release c none = give tt
  check_release c (some x) =
      require_that (is_release_of c x) (
        candidate_contract_error world.test
          "Reconciled publication release differs from preflight.")
      >> query world (world.matches_release c)

  unfoldable pub check_existing : Candidate → Action (Unit {0})
  check_existing c = query world (λ l. ok (find_release c.publication_id l)) >>= check_release c

  -- The promotion failed, or its answer did: Leadership tells which.
  unfoldable pub reconcile_after : Candidate → PublisherError → Action Insertion
  reconcile_after c e = do
    promoted ← reconcile world c
    set_known true
    require_that promoted e
    set_promoted true
    connect world
    give (record { inserted = false; pointer_changed = false })

  unfoldable pub try_promotion : Claimed → Candidate → Action Insertion
  try_promotion r c = do i ← insert_and_promote world r.job r.token c; set_known true; give i

  unfoldable pub promote : Claimed → Candidate → Action Insertion
  promote r c = set_attempted >> try_catch (try_promotion r c) (reconcile_after c)

  -- What the running application shows: its identity, capabilities and the affected route.
  unfoldable pub verify_runtime :
      Claimed → Candidate → Action (Identity × Capabilities × RouteProof)
  verify_runtime r c = do
    runtime ←
        converged_runtime_identity world (renew world r.job.id r.token) (λ i. identity_matches i c)
    before ← converged_runtime_capabilities world r.job.id r.token
    proof ← converged_runtime_route_proof world r.job.id r.token c
    after ← converged_runtime_capabilities world r.job.id r.token
    require_that
        (before.commit == after.commit && before.capability_digest == after.capability_digest)
        (capability FailureCode.runtime_capability_unavailable true)
    give (runtime, after, proof)

  unfoldable pub finalize :
      Claimed → Candidate → Identity → Identity × Capabilities × RouteProof → Action Ending
  finalize r c pointer (runtime, capabilities, proof) = do
    set_verified
    renew world r.job.id r.token
    job ← load_job world r.job.id
    id ← ask world.fresh_id
    write world (λ now. finalize_success now (record {
      job = job;
      token = r.token;
      attempt_id = r.attempt_id;
      observation_id = id;
      candidate = c;
      identity = pointer;
      runtime = runtime;
      capabilities = capabilities;
      route_proof = proof;
    }))
    give succeeded

  unfoldable pub record_promotion : Claimed → Identity → Action (Unit {0})
  record_promotion r pointer = do
    renew world r.job.id r.token
    write world (λ now s. claimed_job_update r.job.id r.token is_working (mark_verifying now) s)
    report world r EventKind.pointer_advanced
        (number pointer.generation ∷ number pointer.manifest_hash ∷ number pointer.release_id ∷ [])

  -- From the promoted pointer to the recorded success.
  unfoldable pub verify_promoted : Claimed → Candidate → Action Ending
  verify_promoted r c = do
    pointer ← query world database_identity
    set_promoted (identity_matches pointer c)
    require_that (identity_matches pointer c)
        (error "Leadership promotion did not select the candidate.")
    record_promotion r pointer
    verified ← verify_runtime r c
    finalize r c pointer verified

  unfoldable pub after_promotion : Claimed → Candidate → Insertion → Action Ending
  after_promotion r c i =
      if i.pointer_changed then query world database_identity >>= refresh world r c else (do
        set_promoted true
        report world r EventKind.release_inserted
            (flag i.inserted ∷ number c.manifest_hash ∷ number c.release_id ∷ [])
        verify_promoted r c)

  -- With the pointer as it was observed.
  unfoldable pub promote_or_verify : Claimed → Candidate → Identity → Action Ending
  promote_or_verify r c before =
      if before.release_id == c.release_id
      then verify_promoted r c
      else promote r c >>= after_promotion r c

  unfoldable pub advance : Claimed → Candidate → Identity → Action Ending
  advance r c before = if base_changed r.job c before then refresh world r c before else (do
    report world r EventKind.pointer_observed
        (number before.generation ∷ number before.manifest_hash ∷ number before.release_id ∷ [])
    mark_promoting world r c
    check_existing c
    promote_or_verify r c before)

  unfoldable pub publish : Claimed → Candidate → Action Ending
  publish r c = do
    persist_snapshot world r c
    resume_promotion world r c
    announce world r c
    converged_runtime_capabilities world r.job.id r.token
    renew world r.job.id r.token
    assert_fence world r.job r.token
    connect world
    before ← query world database_identity
    set_promoted (before.release_id == c.release_id)
    advance r c before

  -- The `try` block, once an attempt has been started.
  unfoldable pub course : Claimed → Action Ending
  course r = do
    require_that (holds r.job.claim_token r.token) lease_lost
    require_that (world.is_git_identity world.producer_commit)
        (error "The publisher deployment commit is not an immutable Git identity.")
    c ← query world (world.candidate_from_persisted r.job)
    set_candidate c
    publish r c
