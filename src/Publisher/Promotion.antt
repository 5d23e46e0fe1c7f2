-- ===== src/Publisher/Promotion.antt =====
-- Promoting the release in Leadership: `insertAndPromote` inside `withPublicationLeaseHeartbeat` of
-- apps/publisher/src/index.ts. Leadership's stored procedures and the rows of an artifact are the
-- outside's; the renewals of the heartbeat's timer are not modelled.
use situation_studio.Prelude.{
  Bool, true, false, ◌&&◌, not, Option, none, some, Uuid, ◌==◌, if◌then◌else◌,
}
use situation_studio.Prelude.Results.{Result, ok, err}
use situation_studio.Store.{PublicationJob}
use situation_studio.Publisher.Tables.{Studio, Leadership, Release, CurrentRelease, Candidate}
use situation_studio.Publisher.Failure.{PublisherError, error}
use situation_studio.Publisher.Lease.{renew_publication_lease, assert_publication_fence}
use situation_studio.Publisher.Identity.{find_release, is_release_of}
use situation_studio.Publisher.Action.{
  World, Action, ◌>>=◌, ◌>>◌, give, query, write, require_that, step_on,
}

-- The result of `insertAndPromote`.
pub record Insertion : Type 0 where
  pub inserted : Bool
  pub pointer_changed : Bool

unfoldable pub renew : World → Uuid → Uuid → Action (Unit {0})
renew world job_id token = write world (λ now s. renew_publication_lease now job_id token s)

abbrev pub fence_read :
    PublicationJob → Uuid → Studio → Result PublisherError (Unit {0}) → Result PublisherError Studio
fence_read job token s (ok u) = ok s
fence_read job token s (err e) = err e

unfoldable pub assert_fence : World → PublicationJob → Uuid → Action (Unit {0})
assert_fence world job token =
    write world (λ now s. fence_read job token s (assert_publication_fence job token s))

unfoldable pub assert_authority : World → PublicationJob → Uuid → Action (Unit {0})
assert_authority world job token = renew world job.id token >> assert_fence world job token

abbrev pub commit_to : Option PublisherError → Bool → Leadership → Action (Unit {0})
commit_to none lands l p = (ok tt, record p { leadership = l })
commit_to (some e) lands l p = (err e, if lands then record p { leadership = l } else p)

-- COMMIT of a Leadership transaction that has come to `l`.
unfoldable pub commit : World → Leadership → Action (Unit {0})
commit world l p = commit_to (world.fault p.tick) (world.commit_lands p.tick) l (step_on p)

unfoldable pub promote_and_commit :
    World → PublicationJob → Uuid → Candidate → Bool → Leadership → Action Insertion
promote_and_commit world job token c inserted l = do
  assert_authority world job token
  promoted ← query world (λ _. world.promote_release c l)
  assert_authority world job token
  commit world promoted
  give (record { inserted = inserted; pointer_changed = false })

abbrev pub pointer_is : (CurrentRelease → Bool) → Option CurrentRelease → Bool
pointer_is test none = false
pointer_is test (some pointer) = test pointer

abbrev pub at_parent : Candidate → CurrentRelease → Bool
at_parent c pointer =
    pointer.release_id == c.parent_release_id && pointer.generation == c.expected_generation

abbrev pub changed : Insertion
changed = record { inserted = false; pointer_changed = true }

unfoldable pub promote_existing :
    World → PublicationJob → Uuid → Candidate → Release → Leadership → Action Insertion
promote_existing world job token c r l = do
  require_that (is_release_of c r) (error "Publication id maps to a different release.")
  query world (world.matches_release c)
  if pointer_is (λ x. x.release_id == c.release_id) l.current_release
      then give (record { inserted = false; pointer_changed = false })
      else if not (r.validated && pointer_is (at_parent c) l.current_release)
      then give changed
      else promote_and_commit world job token c false l

unfoldable pub promote_new :
    World → PublicationJob → Uuid → Candidate → Leadership → Action Insertion
promote_new world job token c l =
    if pointer_is (at_parent c) l.current_release
    then (do
      staged ← query world (world.insert_release c)
      promote_and_commit world job token c true staged)
    else give changed

abbrev pub promote_from :
    World → PublicationJob → Uuid → Candidate → Leadership → Option Release → Action Insertion
promote_from world job token c l none = promote_new world job token c l
promote_from world job token c l (some r) = promote_existing world job token c r l

-- `insertAndPromote` on the tables as its transaction sees them.
unfoldable pub insert_and_promote : World → PublicationJob → Uuid → Candidate → Action Insertion
insert_and_promote world job token c = do
  assert_authority world job token
  l ← query world (λ l. ok l)
  promote_from world job token c l (find_release c.publication_id l)
