-- ===== src/Publisher/Lease.antt =====
-- The writes of a publisher that holds a claim: each first checks token and state in the same
-- transaction (`claimedEvent`, `claimedJobUpdate`, `claimedTransitionWithEvent`,
-- `renewPublicationLease`, `assertPublicationFence` of apps/publisher/src/index.ts).
use situation_studio.Prelude.{
  ◌+◌, ℕ, Bool, true, false, ◌&&◌, Option, none, some, List, Uuid, Millis, ◌==◌, holds, is_none,
  if◌then◌else◌,
}
use situation_studio.Prelude.Rows.{count, update_many, find_first}
use situation_studio.Prelude.Results.{Result, ok, err, ◌>>=◌, require}
use situation_studio.Store.{
  PublicationJob, PublicationState, EventKind, Scalar, Checkout, Situation,
}
use situation_studio.Publisher.Tables.{Studio, publications, with_publications}
use situation_studio.Publisher.Failure.{PublisherError, lease_lost, authority_fenced}
use situation_studio.Publisher.Events.{append_publication_event}

abbrev pub publication_lease_ms : Millis
publication_lease_ms = 180_000

-- ASSEMBLING, PROMOTING and VERIFYING.
abbrev pub is_working : PublicationState → Bool
is_working PublicationState.assembling = true
is_working PublicationState.promoting = true
is_working PublicationState.verifying = true
is_working _ = false

abbrev pub is_renewable : PublicationState → Bool
is_renewable PublicationState.recovery_required = true
is_renewable s = is_working s

abbrev pub is_verifying : PublicationState → Bool
is_verifying PublicationState.verifying = true
is_verifying _ = false

abbrev pub is_assembling_or_promoting : PublicationState → Bool
is_assembling_or_promoting PublicationState.assembling = true
is_assembling_or_promoting PublicationState.promoting = true
is_assembling_or_promoting _ = false

-- The row of one job under one claim, in one of the states.
abbrev pub is_owned : Uuid → Uuid → (PublicationState → Bool) → PublicationJob → Bool
is_owned job_id token states j = j.id == job_id && holds j.claim_token token && states j.state

-- `updateMany`, with what is thrown when it did not write one row.
unfoldable pub owned_update :
    PublisherError
    → Uuid
    → Uuid
    → (PublicationState → Bool)
    → (PublicationJob → PublicationJob)
    → Studio
    → Result PublisherError Studio
owned_update lost job_id token states write s =
    if count (is_owned job_id token states) (publications s) == 1
    then ok
        (with_publications (update_many (is_owned job_id token states) write (publications s)) s)
    else err lost

abbrev pub extend_lease : Millis → PublicationJob → PublicationJob
extend_lease now j = record j { lease_expires_at = some (now + publication_lease_ms) }

abbrev pub drop_claim : PublicationJob → PublicationJob
drop_claim j = record j { claim_token = none; lease_expires_at = none }

unfoldable pub claimed_job_update :
    Uuid
    → Uuid
    → (PublicationState → Bool)
    → (PublicationJob → PublicationJob)
    → Studio
    → Result PublisherError Studio
claimed_job_update = owned_update lease_lost

unfoldable pub claimed_event :
    Millis → Uuid → Uuid → EventKind → List Scalar → Studio → Result PublisherError Studio
claimed_event now job_id token kind payload s = do
  owned ← owned_update lease_lost job_id token is_working (extend_lease now) s
  ok (append_publication_event job_id kind payload owned)

unfoldable pub claimed_transition_with_event :
    Uuid
    → Uuid
    → (PublicationJob → PublicationJob)
    → EventKind
    → List Scalar
    → Studio
    → Result PublisherError Studio
claimed_transition_with_event job_id token write kind payload s = do
  owned ← owned_update lease_lost job_id token is_working write s
  ok (append_publication_event job_id kind payload owned)

unfoldable pub renew_publication_lease :
    Millis → Uuid → Uuid → Studio → Result PublisherError Studio
renew_publication_lease now job_id token =
    owned_update lease_lost job_id token is_renewable (extend_lease now)

abbrev job_holds_fence : Uuid → ℕ → Option PublicationJob → Bool
job_holds_fence token fence none = false
job_holds_fence token fence (some j) =
    holds j.claim_token token && is_working j.state && j.checkout_fence == fence

abbrev pub checkout_holds_fence : ℕ → Option Checkout → Bool
checkout_holds_fence fence none = false
checkout_holds_fence fence (some c) = is_none c.released_at && c.fence == fence

abbrev pub situation_holds_fence : ℕ → Option Situation → Bool
situation_holds_fence fence none = false
situation_holds_fence fence (some s) = s.fence == fence

-- The job as it was loaded carries the ids and the fence.
unfoldable pub assert_publication_fence :
    PublicationJob → Uuid → Studio → Result PublisherError (Unit {0})
assert_publication_fence job token s =
    require
      (job_holds_fence token job.checkout_fence (find_first (λ j. j.id == job.id) (publications s))
        && checkout_holds_fence job.checkout_fence
            (find_first (λ c. c.id == job.checkout_id) s.db.checkouts)
        && situation_holds_fence job.checkout_fence
            (find_first (λ x. x.id == job.situation_id) s.db.situations))
      authority_fenced
