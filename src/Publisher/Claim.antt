-- ===== src/Publisher/Claim.antt =====
-- Claiming a publication: `claimPublicationJob` of apps/publisher/src/index.ts. The row locks that
-- `SKIP LOCKED` passes over are not modelled: a transaction runs alone.
pub mod Granting
use situation_studio.Prelude.{
  ◌+◌, Bool, true, false, ◌&&◌, ◌||◌, Option, none, some, List, [], ◌∷◌, Uuid, Millis, ◌==◌, ltb,
  is_some, if◌then◌else◌, any,
}
use situation_studio.Prelude.Rows.{update_many, select}
use situation_studio.Store.{PublicationJob, PublicationState, needs_recovery}
use situation_studio.Worker.Failure.{or_else}
use situation_studio.Publisher.Tables.{Studio, publications, with_publications}
use situation_studio.Publisher.Lease.{publication_lease_ms, is_working}

abbrev lease_after : Millis → Option Millis → Bool
lease_after now none = false
lease_after now (some lease) = ltb now lease

abbrev lease_over : Millis → Option Millis → Bool
lease_over now none = true
lease_over now (some lease) = ltb lease now

abbrev is_requested : PublicationState → Bool
is_requested PublicationState.requested = true
is_requested _ = false

-- A working job under a claim whose lease runs.
unfoldable pub is_live : Millis → PublicationJob → Bool
is_live now j = is_working j.state && is_some j.claim_token && lease_after now j.lease_expires_at

unfoldable pub is_claimable : Millis → PublicationJob → Bool
is_claimable now j =
    is_requested j.state || (is_working j.state && lease_over now j.lease_expires_at)

-- `ORDER BY "created_at", "id"`.
abbrev pub comes_before : PublicationJob → PublicationJob → Bool
comes_before a b = ltb a.created_at b.created_at || (a.created_at == b.created_at && ltb a.id b.id)

abbrev keep_first : PublicationJob → Option PublicationJob → Option PublicationJob
keep_first x none = some x
keep_first x (some y) = if comes_before x y then some x else some y

unfoldable pub first_of : List PublicationJob → Option PublicationJob
first_of [] = none
first_of (x ∷ xs) = keep_first x (first_of xs)

unfoldable pub next_publication : Millis → List PublicationJob → Option PublicationJob
next_publication now jobs = first_of (select (is_claimable now) jobs)

abbrev started_state : PublicationState → PublicationState
started_state PublicationState.requested = PublicationState.assembling
started_state s = s

abbrev pub take_claim : Millis → Uuid → PublicationJob → PublicationJob
take_claim now token j = record j {
  state = started_state j.state;
  started_at = some (or_else j.started_at now);
  claim_token = some token;
  lease_expires_at = some (now + publication_lease_ms);
}

abbrev grant_claim : Millis → Uuid → Studio → Option PublicationJob → Option Uuid × Studio
grant_claim now token s none = (none, s)
grant_claim now token s (some j) = (
  some j.id,
  with_publications (update_many (λ k. k.id == j.id) (take_claim now token) (publications s)) s,
)

-- `claimPublicationJob` under a fresh token, with the id of the job that was claimed.
unfoldable pub claim_publication_job : Millis → Uuid → Studio → Option Uuid × Studio
claim_publication_job now token s =
    if any (λ j. needs_recovery j.state) (publications s) || any (is_live now) (publications s)
    then (none, s)
    else grant_claim now token s (next_publication now (publications s))
