-- ===== src/Publisher/Finalize.antt =====
-- The transaction of a verified publication: `finalizeSuccess` of apps/publisher/src/index.ts. The
-- rows of a version's artifacts are not modelled.
pub mod Finishing
pub mod Recognizing
use situation_studio.Prelude.{
  ◌++◌, ℕ, Bool, true, false, ◌&&◌, ◌||◌, not, Option, none, some, List, [], ◌∷◌, Uuid, Digest,
  Millis, String, ◌==◌, same, holds, is_none, is_some, if◌then◌else◌,
}
use situation_studio.Prelude.Rows.{find_first, update_many, count}
use situation_studio.Prelude.Results.{Result, ok, err, ◌>>=◌, ◌>>◌, require}
use situation_studio.Store.{
  PublicationJob, PublicationState, FailureCode, Situation, Checkout, ReleaseReason, Draft,
  DraftState, Revision, ReleaseObservation, ProductionVersion, VerificationReceipt, EventKind,
  Scalar, number, text, ReconciledState, publication_succeeded, draft_is_active, Db,
}
use situation_studio.Publisher.Tables.{Studio, Candidate, publications, with_publications}
use situation_studio.Publisher.Failure.{PublisherError, error}
use situation_studio.Publisher.Events.{append_publication_event}
use situation_studio.Publisher.Lease.{
  owned_update, is_verifying, checkout_holds_fence, situation_holds_fence,
}
use situation_studio.Publisher.Attempts.{finish_attempt}
use situation_studio.Publisher.Outcome.{update_attempt}
use situation_studio.Publisher.Identity.{Identity}
use situation_studio.Publisher.Action.{Capabilities, RouteProof}

-- What a run has verified when it finalizes: the job as loaded, the pointer and the runtime.
pub record Verified : Type 0 where
  pub job : PublicationJob
  pub token : Uuid
  pub attempt_id : Uuid
  pub observation_id : Uuid
  pub candidate : Candidate
  pub identity : Identity
  pub runtime : Identity
  pub capabilities : Capabilities
  pub route_proof : RouteProof

abbrev pub job_is_held : Verified → Option PublicationJob → Bool
job_is_held v none = false
job_is_held v (some j) =
    j.checkout_fence == v.job.checkout_fence && is_verifying j.state && holds j.claim_token v.token

abbrev pub is_held : Verified → Studio → Bool
is_held v s =
    job_is_held v (find_first (λ j. j.id == v.job.id) (publications s))
    && checkout_holds_fence v.job.checkout_fence
        (find_first (λ c. c.id == v.job.checkout_id) s.db.checkouts)
    && situation_holds_fence v.job.checkout_fence
        (find_first (λ x. x.id == v.job.situation_id) s.db.situations)

abbrev fresh_observation : Verified → ReleaseObservation
fresh_observation v = record {
  id = v.observation_id;
  release_id = v.candidate.release_id;
  manifest_hash = v.candidate.manifest_hash;
  pointer_generation = some v.identity.generation;
}

abbrev pub observe_with :
    Verified
    → Studio
    → Option ReleaseObservation
    → Result PublisherError (ReleaseObservation × Studio)
observe_with v s (some o) =
    if o.manifest_hash == v.candidate.manifest_hash
      && holds o.pointer_generation v.identity.generation
    then ok (o, s)
    else err (error "Leadership observation differs from verified release.")
observe_with v s none =
    ok (fresh_observation v, record s { observations = s.observations ++ fresh_observation v ∷ [] })

unfoldable pub observe : Verified → Studio → Result PublisherError (ReleaseObservation × Studio)
observe v s =
    observe_with v s (find_first (λ o. o.release_id == v.candidate.release_id) s.observations)

abbrev fresh_version : Millis → Verified → ReleaseObservation → ProductionVersion
fresh_version now v o = record {
  situation_id = v.job.situation_id;
  observation_id = o.id;
  bundle_hash = v.candidate.bundle_hash;
  production_at = now;
}

abbrev pub version_with :
    Millis
    → Verified
    → ReleaseObservation
    → Studio
    → Option ProductionVersion
    → Result PublisherError (ProductionVersion × Studio)
version_with now v o s (some x) =
    if x.bundle_hash == v.candidate.bundle_hash
    then ok (x, s)
    else err (error "Production version differs from verified candidate.")
version_with now v o s none =
    ok (fresh_version now v o, record s { versions = s.versions ++ fresh_version now v o ∷ [] })

unfoldable pub add_version :
    Millis
    → Verified
    → ReleaseObservation
    → Studio
    → Result PublisherError (ProductionVersion × Studio)
add_version now v o s =
    version_with now v o s (
      find_first (λ x. x.situation_id == v.job.situation_id && x.observation_id == o.id) s.versions)

abbrev pub is_fenced_situation : Verified → Situation → Bool
is_fenced_situation v x = x.id == v.job.situation_id && x.fence == v.job.checkout_fence

unfoldable pub set_production : Verified → ProductionVersion → Studio → Result PublisherError Studio
set_production v x s =
    if count (is_fenced_situation v) s.db.situations == 1
    then ok (record s {
      db = record (s.db) {
        situations =
            update_many (is_fenced_situation v)
              (λ y. record y {
                title = v.candidate.title;
                visibility = v.candidate.visibility;
                production_bundle_hash = some x.bundle_hash;
                production_release_id = some v.candidate.release_id;
              })
              s.db.situations;
      };
    })
    else err (error "Publication situation update was fenced.")

abbrev pub receipt_of : Verified → VerificationReceipt
receipt_of v = record {
  job_id = v.job.id;
  expected_release_id = v.candidate.release_id;
  expected_manifest_hash = v.candidate.manifest_hash;
  observed_runtime_release_id = v.runtime.release_id;
  observed_runtime_hash = v.runtime.manifest_hash;
  pointer_generation = v.identity.generation;
}

abbrev pub receipt_with :
    Verified → Studio → Option VerificationReceipt → Result PublisherError Studio
receipt_with v s (some r) =
    if r.expected_release_id == v.candidate.release_id
      && r.expected_manifest_hash == v.candidate.manifest_hash
    then ok s
    else err (error "Verification receipt differs from verified candidate.")
receipt_with v s none = ok (record s { receipts = s.receipts ++ receipt_of v ∷ [] })

unfoldable pub add_receipt : Verified → Studio → Result PublisherError Studio
add_receipt v s = receipt_with v s (find_first (λ r. r.job_id == v.job.id) s.receipts)

abbrev pub is_held_checkout : Verified → Checkout → Bool
is_held_checkout v c =
    c.id == v.job.checkout_id && c.fence == v.job.checkout_fence && is_none c.released_at

unfoldable pub release_checkout : Millis → Verified → Studio → Result PublisherError Studio
release_checkout now v s =
    if count (is_held_checkout v) s.db.checkouts == 1
    then ok (record s {
      db = record (s.db) {
        checkouts =
            update_many (is_held_checkout v)
              (λ c. record c {
                released_at = some now;
                release_reason = some ReleaseReason.published;
              })
              s.db.checkouts;
      };
    })
    else err (error "Publication checkout release was fenced.")

-- The draft of `job.targetRevision`.
abbrev is_published_draft : Option Revision → Draft → Bool
is_published_draft none d = false
is_published_draft (some r) d = d.id == r.draft_id && draft_is_active d.state

unfoldable pub archive_draft : Millis → Verified → Studio → Studio
archive_draft now v s =
    let target = find_first (λ r. r.id == v.job.target_revision_id) s.db.revisions in
    record s {
      db = record (s.db) {
        drafts =
            update_many (is_published_draft target)
              (λ d. record d { state = DraftState.archived; archived_at = some now }) s.db.drafts;
      };
    }

abbrev pub actor_of : Option Revision → Option Uuid
actor_of none = none
actor_of (some r) = some r.actor_id

unfoldable pub record_events : Verified → Studio → Studio
record_events v s =
    append_publication_event v.job.id EventKind.succeeded (number v.candidate.release_id ∷ []) (
      append_publication_event v.job.id EventKind.verified
        (number v.capabilities.capability_digest
          ∷ number v.identity.manifest_hash
          ∷ number v.identity.release_id
          ∷ number v.route_proof.http_status
          ∷ text v.route_proof.code
          ∷ number v.runtime.manifest_hash
          ∷ number v.runtime.release_id
          ∷ [])
        s)

-- The backup to make and the audit event.
unfoldable pub record_success : Verified → Studio → Studio
record_success v s = record s {
  backups = s.backups ++ v.job.id ∷ [];
  db = record (s.db) {
    audit =
        s.db.audit
        ++ record {
          actor_id = actor_of (find_first (λ r. r.id == v.job.target_revision_id) s.db.revisions);
          action =
              publication_succeeded v.candidate.release_id v.candidate.manifest_hash
                v.identity.generation;
          subject_id = v.job.id;
        }
          ∷ [];
  };
}

abbrev pub is_fenced_job : Verified → PublicationJob → Bool
is_fenced_job v j =
    j.id == v.job.id
    && holds j.claim_token v.token
    && is_verifying j.state
    && j.checkout_fence == v.job.checkout_fence

abbrev pub succeed : Millis → PublicationJob → PublicationJob
succeed now j = record j {
  state = PublicationState.succeeded;
  finished_at = some now;
  failure_code = none;
  claim_token = none;
  lease_expires_at = none;
}

unfoldable pub complete_job : Millis → Verified → Studio → Result PublisherError Studio
complete_job now v s =
    if count (is_fenced_job v) (publications s) == 1
    then ok (with_publications (update_many (is_fenced_job v) (succeed now) (publications s)) s)
    else err (error "Late publisher finalization was fenced.")

-- `finalizeSuccess`.
unfoldable pub finalize_success : Millis → Verified → Studio → Result PublisherError Studio
finalize_success now v s = do
  require (is_held v s) (error "Late publisher result was fenced.")
  (o, observed) ← observe v s
  (x, versioned) ← add_version now v o observed
  produced ← set_production v x versioned
  receipted ← add_receipt v produced
  released ← release_checkout now v receipted
  attempted ←
      update_attempt v.attempt_id (finish_attempt now none ReconciledState.succeeded)
        (record_success v (record_events v (archive_draft now v released)))
  complete_job now v attempted
