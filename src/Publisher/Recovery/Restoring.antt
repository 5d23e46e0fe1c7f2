-- ===== src/Publisher/Recovery/Restoring.antt =====
-- What a recovery pass keeps.
use situation_studio.Prelude.{
  refl, arith, inl, inr, ℕ, false, Option, some, List, [], ◌∷◌, Uuid, Millis, Bool-cases, ◌==◌,
  holds,
}
use situation_studio.Prelude.Rows.{count}
use situation_studio.Prelude.Results.{Result, ok, err}
use situation_studio.Store.{PublicationJob, FailureCode, EventKind, ReconciledState, needs_recovery}
use situation_studio.Publisher.Tables.{Studio, publications}
use situation_studio.Publisher.Attempts.{is_open}
use situation_studio.Publisher.Attempts.Counting.{AttemptsInv, finish-AttemptsInv}
use situation_studio.Publisher.Lease.{is_owned}
use situation_studio.Publisher.Lifecycle.{Follows, Follows-refl, stay}
use situation_studio.Publisher.Failure.{PublisherError}
use situation_studio.Publisher.Events.Appending.{EventsNumbered}
use situation_studio.Publisher.Writing.{Lawful, write-Lawful, append-Lawful, same-Lawful}
use situation_studio.Publisher.Identity.{Identity, database_identity}
use situation_studio.Publisher.Action.{World, Progress, give}
use situation_studio.Publisher.Hoare.{After, Keeps, bind-Keeps, catch-Keeps, give-Keeps, if-Keeps}
use situation_studio.Publisher.Run.Quiet.{
  OthersLawful, Knowledge, Knows, transaction-Keeps, query-Keeps,
}
use situation_studio.Publisher.Run.Probes.{ask-Keeps, converged_runtime_identity-Keeps}
use situation_studio.Publisher.Run.Ending.{Anything, recovering-Moves}
use situation_studio.Publisher.Recovery.{
  is_recoverable, take_recovery, claim_recovery, restored_job, record_recovery, restore_recovered,
  runtime_shows, restore_job, reconcile_recovery, reconcile_recoveries,
}

module _ (s0 : Studio) where
  claim_recovery-Lawful :
      (now : Millis) (job_id token : Uuid) (s : Studio)
      → Lawful s0 s
      → Lawful s0 (claim_recovery now job_id token s).1
  unfolding claim_recovery
  claim_recovery-Lawful now job_id token s h =
      write-Lawful s0 (is_recoverable now job_id) (take_recovery now token) s (λ j. refl)
        (λ j w. stay) h

  record_recovery-Lawful :
      (now : Millis) (job : PublicationJob) (i : Identity) (s : Studio)
      → Lawful s0 s
      → Lawful s0 (record_recovery now job i s)
  unfolding record_recovery
  record_recovery-Lawful now job i s h = same-Lawful s0 _ _ refl refl refl (
      append-Lawful s0 job.id EventKind.restored _ _ (record {
        follows = h.follows;
        numbered = h.numbered;
        attempts =
            finish-AttemptsInv (is_open job.id) now
              (some FailureCode.publication_recovery_reconciled)
              ReconciledState.reconciled_after_runtime_convergence s.attempts h.attempts;
      }))

  restore_recovered-Lawful :
      (now : Millis) (job : PublicationJob) (token : Uuid) (i : Identity) (s : Studio)
      → Lawful s0 s
      → Lawful s0 (restore_recovered now job token i s).1
  unfolding restore_recovered
  restore_recovered-Lawful now job token i s h =
      elim (Bool-cases (count (is_owned job.id token needs_recovery) (publications s) == 1)) [
        | inl e ↦ rw e (
            record_recovery-Lawful now job i _ (
              write-Lawful s0 (is_owned job.id token needs_recovery) (restored_job now) s
                (λ j. refl) (λ j w. recovering-Moves j.state (ground arith)) h))
        | inr e ↦ rw e h
      ]

module _ (world : World) (lawful : OthersLawful world) (s0 : Studio) (K : Knowledge) where
  abbrev I : Progress → Type 0
  I = Knows s0 K

  runtime_shows-Keeps : (i : Identity) → Keeps I (runtime_shows world i)
  unfolding runtime_shows
  runtime_shows-Keeps i =
      catch-Keeps I _ _
        (bind-Keeps I _ _
          (converged_runtime_identity-Keeps world lawful s0 K (give tt) _ (give-Keeps I tt))
          (λ x. give-Keeps I _))
        (λ e. give-Keeps I false)

  restore_job-Keeps : (job : PublicationJob) (i : Identity) → Keeps I (restore_job world job i)
  unfolding restore_job
  restore_job-Keeps job i = bind-Keeps I _ _ (ask-Keeps world lawful s0 K world.fresh_id) (λ token.
      bind-Keeps I _ _
        (transaction-Keeps world lawful s0 K (λ now s. ok (claim_recovery now job.id token s))
          (λ now s h. claim_recovery-Lawful s0 now job.id token s h))
        (λ claimed.
          if-Keeps I claimed _ _
            (transaction-Keeps world lawful s0 K (λ now s. ok (restore_recovered now job token i s))
              (λ now s h. restore_recovered-Lawful s0 now job token i s h))
            (give-Keeps I false)))

  reconcile_recovery-Keeps :
      (job : PublicationJob) (parent : Option Uuid) → Keeps I (reconcile_recovery world job parent)
  unfolding reconcile_recovery
  reconcile_recovery-Keeps job parent =
      bind-Keeps I _ _ (query-Keeps world lawful s0 K database_identity) (λ i.
        if-Keeps I (holds parent i.release_id) _ _
          (bind-Keeps I _ _ (runtime_shows-Keeps i)
            (λ shown. if-Keeps I shown _ _ (restore_job-Keeps job i) (give-Keeps I false)))
          (give-Keeps I false))

  pub reconcile_recoveries-Keeps :
      (parent_of : PublicationJob → Option Uuid) (jobs : List PublicationJob)
      → Keeps I (reconcile_recoveries world parent_of jobs)
  unfolding reconcile_recoveries
  reconcile_recoveries-Keeps parent_of [] = give-Keeps I 0
  reconcile_recoveries-Keeps parent_of (job ∷ jobs) =
      bind-Keeps I _ _ (reconcile_recovery-Keeps job (parent_of job)) (λ changed.
        bind-Keeps I _ _ (reconcile_recoveries-Keeps parent_of jobs) (λ n. give-Keeps I _))

-- A recovery pass, whatever the outside answers and also where it throws, keeps every publication
-- where it was or moves it on in the abstract life of a publication, and keeps events and attempts
-- numbered with at most one attempt of a job open. Other processes are assumed to keep the same; what
-- they add are publications whose life began as a request.
pub recovery_refines :
    (world : World) (lawful : OthersLawful world) (parent_of : PublicationJob → Option Uuid)
    (jobs : List PublicationJob) (p : Progress)
    → EventsNumbered p.studio
    → AttemptsInv p.studio.attempts
    → Follows
        (publications p.studio)
        (publications (reconcile_recoveries world parent_of jobs p).1.studio)
      × EventsNumbered (reconcile_recoveries world parent_of jobs p).1.studio
      × AttemptsInv (reconcile_recoveries world parent_of jobs p).1.studio.attempts
recovery_refines world lawful parent_of jobs p numbered attempts =
    let h = ends (reconcile_recoveries world parent_of jobs p) (
      reconcile_recoveries-Keeps world lawful p.studio Anything parent_of jobs p (
        record {
          follows = Follows-refl (publications p.studio);
          numbered = numbered;
          attempts = attempts;
        },
        tt,
      )) in
    (h.follows, h.numbered, h.attempts)
  where
    ends :
        (r : Result PublisherError ℕ × Progress)
        → After (λ _. Knows p.studio Anything) (Knows p.studio Anything) r
        → Lawful p.studio r.1.studio
    ends (ok n, q) h = h.0
    ends (err e, q) h = h.0
