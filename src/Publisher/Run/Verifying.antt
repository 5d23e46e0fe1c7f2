-- ===== src/Publisher/Run/Verifying.antt =====
-- Beginning a run, and the steps that verify and record a promotion, keep what is known.
use situation_studio.Prelude.{◌≡◌, refl, ◌&&◌, Option, none, some, Uuid, ◌==◌}
use situation_studio.Prelude.Results.{Result, ok, err, Always}
use situation_studio.Store.{PublicationJob}
use situation_studio.Publisher.Tables.{Studio, Candidate, Release}
use situation_studio.Publisher.Failure.{PublisherError}
use situation_studio.Publisher.Attempts.{start_publication_attempt}
use situation_studio.Publisher.Attempts.Counting.{AttemptsInv, start-AttemptsInv, started_only}
use situation_studio.Publisher.Identity.{Identity, identity_matches, find_release, is_release_of}
use situation_studio.Publisher.Action.{
  World, Progress, Capabilities, RouteProof, query, require_that,
}
use situation_studio.Publisher.Writing.{Lawful}
use situation_studio.Publisher.Promotion.{renew}
use situation_studio.Publisher.Probing.{ask}
use situation_studio.Publisher.Finalize.Finishing.{finalize_success-Lawful}
use situation_studio.Publisher.Steps.{succeeded, Claimed, set_verified, load_job}
use situation_studio.Publisher.Course.{check_release, check_existing, verify_runtime, finalize}
use situation_studio.Publisher.Hoare.{
  Triple, Keeps, bind-Keeps, then-Keeps, bind-Triple, then-Triple, give-Keeps, require_that-Keeps,
}
use situation_studio.Publisher.Run.Reports.{Unfailed, give-Unfailed, load_job-Keeps}
use situation_studio.Publisher.Steps.{begin, claimed_of}
use situation_studio.Store.{PublicationAttempt}
use situation_studio.Publisher.Run.Quiet.{
  OthersLawful, Knowledge, Knows, transaction-Keeps, write-Keeps, query-Keeps, renew-Keeps,
}
use situation_studio.Publisher.Run.Probes.{
  ask-Keeps, converged_runtime_identity-Keeps, converged_runtime_capabilities-Keeps,
  converged_runtime_route_proof-Keeps,
}

module _ (world : World) (lawful : OthersLawful world) (s0 : Studio) (K : Knowledge) where
  abbrev I : Progress → Type 0
  I = Knows s0 K

  check_release-Keeps : (c : Candidate) (x : Option Release) → Keeps I (check_release world c x)
  check_release-Keeps c none = give-Keeps I tt
  check_release-Keeps c (some x) =
      then-Keeps I (require_that (is_release_of c x) _) (query world (world.matches_release c))
        (require_that-Keeps I (is_release_of c x) _)
        (query-Keeps world lawful s0 K (world.matches_release c))

  pub check_existing-Keeps : (c : Candidate) → Keeps I (check_existing world c)
  unfolding check_existing
  check_existing-Keeps c =
      bind-Keeps I (query world (λ l. ok (find_release c.publication_id l))) (check_release world c)
        (query-Keeps world lawful s0 K (λ l. ok (find_release c.publication_id l)))
        (check_release-Keeps c)

  pub verify_runtime-Keeps : (r : Claimed) (c : Candidate) → Keeps I (verify_runtime world r c)
  unfolding verify_runtime
  verify_runtime-Keeps r c =
      bind-Keeps I _ _
        (converged_runtime_identity-Keeps world lawful s0 K (renew world r.job.id r.token)
          (λ i. identity_matches i c) (renew-Keeps world lawful s0 K r.job.id r.token))
        (λ runtime.
          bind-Keeps I _ _ (converged_runtime_capabilities-Keeps world lawful s0 K r.job.id r.token)
            (λ before.
              bind-Keeps I _ _
                (converged_runtime_route_proof-Keeps world lawful s0 K r.job.id r.token c)
                (λ proof.
                  bind-Keeps I _ _
                    (converged_runtime_capabilities-Keeps world lawful s0 K r.job.id r.token)
                    (λ after.
                      then-Keeps I _ _
                        (require_that-Keeps I
                          (before.commit == after.commit
                            && before.capability_digest == after.capability_digest)
                          _)
                        (give-Keeps I (runtime, after, proof))))))

  set_verified-Keeps : Keeps I set_verified
  unfolding set_verified
  set_verified-Keeps p h = h

  pub finalize-Unfailed :
      (r : Claimed) (c : Candidate) (pointer : Identity)
      (verified : Identity × Capabilities × RouteProof)
      → Triple I (finalize world r c pointer verified) (Unfailed world lawful s0 K) I
  unfolding finalize
  finalize-Unfailed r c pointer (runtime, capabilities, proof) =
      then-Triple I (λ _. I) (Unfailed world lawful s0 K) I set_verified _ set_verified-Keeps
        (λ _.
          then-Triple I (λ _. I) (Unfailed world lawful s0 K) I (renew world r.job.id r.token) _
            (renew-Keeps world lawful s0 K r.job.id r.token)
            (λ _.
              bind-Triple I (λ _. I) (Unfailed world lawful s0 K) I (load_job world r.job.id) _
                (load_job-Keeps world lawful s0 K r.job.id)
                (λ job.
                  bind-Triple I (λ _. I) (Unfailed world lawful s0 K) I (ask world.fresh_id) _
                    (ask-Keeps world lawful s0 K world.fresh_id)
                    (λ id. give-Unfailed world lawful s0 K _ succeeded refl (
                      write-Keeps world lawful s0 K _ (λ now s h.
                        finalize_success-Lawful s0
                          (record {
                            job = job;
                            token = r.token;
                            attempt_id = r.attempt_id;
                            observation_id = id;
                            candidate = c;
                            identity = pointer;
                            runtime = runtime;
                            capabilities = capabilities;
                            route_proof = proof;
                          })
                          now s h))))))

  pub begin-Keeps : (job_id token : Uuid) → Keeps I (begin world job_id token)
  unfolding begin
  begin-Keeps job_id token =
      then-Keeps I (renew world job_id token) _ (renew-Keeps world lawful s0 K job_id token) (
        bind-Keeps I (ask world.fresh_id) _ (ask-Keeps world lawful s0 K world.fresh_id) (λ id.
          transaction-Keeps world lawful s0 K _ (λ now s h.
            started s h (start_publication_attempt now id job_id token s)
              (started_only now id job_id token s)
              (start-AttemptsInv now id job_id token s h.attempts))))
    where
      started :
          (s : Studio)
          → Lawful s0 s
          → (r : Result PublisherError (PublicationJob × PublicationAttempt × Studio))
          → Always (λ q. (q.2.db ≡ s.db) × (q.2.events ≡ s.events)) r
          → Always (λ q. AttemptsInv q.2.attempts) r
          → Always (λ q. Lawful s0 q.1) (claimed_of token r)
      started s h (err e) same inv = tt
      started s h (ok (job, attempt, s')) (same_db, same_events) inv = record {
        follows = rw same_db h.follows;
        numbered = rw same_events h.numbered;
        attempts = inv;
      }
