-- ===== src/Publisher/Identity.antt =====
-- The release that Leadership shows: `databaseIdentity`, `reconcileAmbiguousPromotion` and the check
-- of an existing release (apps/publisher/src/index.ts), as queries of its tables.
use situation_studio.Prelude.{
  ℕ, Bool, false, ◌&&◌, Option, none, some, Uuid, Digest, ◌==◌, if◌then◌else◌,
}
use situation_studio.Prelude.Rows.{find_first}
use situation_studio.Prelude.Results.{Result, ok, err, ◌>>=◌}
use situation_studio.Publisher.Tables.{Leadership, Release, CurrentRelease, Candidate}
use situation_studio.Publisher.Failure.{PublisherError, error, Matcher, candidate_contract_error}

pub record Identity : Type 0 where
  pub release_id : Uuid
  pub manifest_hash : Digest
  pub generation : ℕ

abbrev pub pointer_absent : PublisherError
pointer_absent = error "Leadership official pointer is absent."

abbrev with_release : CurrentRelease → Option Release → Result PublisherError Identity
with_release pointer none = err pointer_absent
with_release pointer (some release) = ok (record {
  release_id = pointer.release_id;
  manifest_hash = release.manifest_hash;
  generation = pointer.generation;
})

abbrev joined : Leadership → Option CurrentRelease → Result PublisherError Identity
joined l none = err pointer_absent
joined l (some pointer) =
    with_release pointer (find_first (λ r. r.id == pointer.release_id) l.content_releases)

unfoldable pub database_identity : Leadership → Result PublisherError Identity
database_identity l = joined l l.current_release

-- `identityMatches`, and the same test on the pointer: the candidate is what Leadership shows.
unfoldable pub identity_matches : Identity → Candidate → Bool
identity_matches i c = i.release_id == c.release_id && i.manifest_hash == c.manifest_hash

abbrev pub find_release : Uuid → Leadership → Option Release
find_release publication_id l =
    find_first (λ r. r.studio_publication_id == publication_id) l.content_releases

abbrev pub is_release_of : Candidate → Release → Bool
is_release_of c r = r.id == c.release_id && r.manifest_hash == c.manifest_hash

-- `promoted` of `reconcileAmbiguousPromotion`.
abbrev pub reconcile_release :
    Matcher → Candidate → Identity → Option Release → Result PublisherError Bool
reconcile_release test c pointer none = ok false
reconcile_release test c pointer (some r) =
    if is_release_of c r
    then ok (identity_matches pointer c)
    else err
        (candidate_contract_error test "Publication id maps to different Leadership release bytes.")

unfoldable pub reconcile_ambiguous_promotion :
    Matcher → Candidate → Leadership → Result PublisherError Bool
reconcile_ambiguous_promotion test c l = do
  pointer ← database_identity l
  reconcile_release test c pointer (find_release c.publication_id l)
