-- ===== src/Publisher/Recovery.antt =====
-- Jobs that await recovery, when Leadership and the running application show their parent release
-- again: `reconcilePublicationRecovery` of apps/publisher/src/index.ts.
pub mod Restoring
use situation_studio.Prelude.{
  ℕ, suc, ◌+◌, Bool, true, false, ◌&&◌, ◌||◌, Option, none, some, List, [], ◌∷◌, ◌++◌, Uuid, Millis,
  ◌==◌, holds, is_none, ltb, if◌then◌else◌,
}
use situation_studio.Prelude.Rows.{find_first, update_many, count, select}
use situation_studio.Prelude.Results.{Result, ok, err}
use situation_studio.Store.{
  PublicationJob, PublicationState, FailureCode, EventKind, Scalar, number, flag, ReconciledState,
  needs_recovery, publication_recovery_reconciled, Revision,
}
use situation_studio.Publisher.Tables.{Studio, publications, with_publications}
use situation_studio.Publisher.Events.{append_publication_event}
use situation_studio.Publisher.Lease.{publication_lease_ms, is_owned}
use situation_studio.Publisher.Attempts.{is_open, finish_attempt}
use situation_studio.Publisher.Identity.{Identity, database_identity}
use situation_studio.Publisher.Action.{
  World, Action, ◌>>=◌, ◌>>◌, give, query, transaction, try_catch,
}
use situation_studio.Publisher.Probing.{ask, converged_runtime_identity}

abbrev lease_is_over : Millis → Option Millis → Bool
lease_is_over now none = true
lease_is_over now (some lease) = ltb lease now

-- A job in recovery that no publisher holds.
abbrev pub is_recoverable : Millis → Uuid → PublicationJob → Bool
is_recoverable now job_id j =
    j.id == job_id
    && needs_recovery j.state
    && (is_none j.claim_token || lease_is_over now j.lease_expires_at)

abbrev pub take_recovery : Millis → Uuid → PublicationJob → PublicationJob
take_recovery now token j = record j {
  claim_token = some token;
  lease_expires_at = some (now + publication_lease_ms);
}

-- Whether the one row was claimed.
unfoldable pub claim_recovery : Millis → Uuid → Uuid → Studio → Bool × Studio
claim_recovery now job_id token s = (
  count (is_recoverable now job_id) (publications s) == 1,
  with_publications
      (update_many (is_recoverable now job_id) (take_recovery now token) (publications s)) s,
)

abbrev pub restored_job : Millis → PublicationJob → PublicationJob
restored_job now j = record j {
  state = PublicationState.restored;
  finished_at = some now;
  failure_code = some FailureCode.verification_failed_restored;
  claim_token = none;
  lease_expires_at = none;
}

abbrev actor_of : Option Revision → Option Uuid
actor_of none = none
actor_of (some r) = some r.actor_id

-- The open attempts, the event and the audit event of a reconciled recovery.
unfoldable pub record_recovery : Millis → PublicationJob → Identity → Studio → Studio
record_recovery now job i s =
    let closed = record s {
      attempts =
          update_many (is_open job.id)
            (finish_attempt now (some FailureCode.publication_recovery_reconciled)
              ReconciledState.reconciled_after_runtime_convergence)
            s.attempts;
    } in
    let told =
      append_publication_event job.id EventKind.restored
        (number i.generation ∷ number i.manifest_hash ∷ flag true ∷ number i.release_id ∷ [])
        closed in
    record told {
      db = record (told.db) {
        audit =
            told.db.audit
            ++ record {
              actor_id = actor_of (find_first (λ r. r.id == job.target_revision_id) s.db.revisions);
              action = publication_recovery_reconciled i.release_id i.manifest_hash i.generation;
              subject_id = job.id;
            }
              ∷ [];
      };
    }

unfoldable pub restore_recovered :
    Millis → PublicationJob → Uuid → Identity → Studio → Bool × Studio
restore_recovered now job token i s =
    if count (is_owned job.id token needs_recovery) (publications s) == 1
    then (
      true,
      record_recovery now job i (
          with_publications
            (update_many (is_owned job.id token needs_recovery) (restored_job now) (publications s))
            s),
    )
    else (false, s)

module _ (world : World) where
  -- The application shows the identity; any error is taken for a no.
  unfoldable pub runtime_shows : Identity → Action Bool
  runtime_shows i =
      try_catch
        (converged_runtime_identity world (give tt)
            (λ x. x.release_id == i.release_id && x.manifest_hash == i.manifest_hash)
          >>= λ x. give (x.release_id == i.release_id && x.manifest_hash == i.manifest_hash))
        (λ _. give false)

  unfoldable pub restore_job : PublicationJob → Identity → Action Bool
  restore_job job i = do
    token ← ask world.fresh_id
    claimed ← transaction world (λ now s. ok (claim_recovery now job.id token s))
    if claimed
        then transaction world (λ now s. ok (restore_recovered now job token i s))
        else give false

  -- One job whose parent release is `parent`, the preflight's base or the snapshot's parent.
  unfoldable pub reconcile_recovery : PublicationJob → Option Uuid → Action Bool
  reconcile_recovery job parent = do
    i ← query world database_identity
    if holds parent i.release_id
        then (do shown ← runtime_shows i; if shown then restore_job job i else give false)
        else give false

  -- The loop: how many were reconciled.
  unfoldable pub reconcile_recoveries :
      (PublicationJob → Option Uuid) → List PublicationJob → Action ℕ
  reconcile_recoveries parent_of [] = give 0
  reconcile_recoveries parent_of (job ∷ jobs) =
      let rest = reconcile_recoveries parent_of jobs in
      reconcile_recovery job (parent_of job) >>= λ changed.
      rest >>= λ n. give (if changed then suc n else n)
