-- ===== src/Publisher/Run/Showing.antt =====
-- What it means that Leadership's tables show a candidate.
use situation_studio.Prelude.{
  ◌≡◌, refl, inl, inr, Bool, false, ◌&&◌, Option, none, some, arith, ◌==◌, Option-cases,
}
use situation_studio.Prelude.Rows.{find_first}
use situation_studio.Publisher.Tables.{Leadership, Candidate, Release, CurrentRelease}
use situation_studio.Publisher.Failure.{Matcher}
use situation_studio.Publisher.Identity.{
  database_identity, identity_matches, reconcile_ambiguous_promotion,
}
use situation_studio.Publisher.Run.Knowing.{is_shown}

abbrev is_bytes_of : Candidate → Option Release → Bool
is_bytes_of c none = false
is_bytes_of c (some r) = r.manifest_hash == c.manifest_hash

abbrev is_publication_of : Candidate → Option Release → Bool
is_publication_of c none = false
is_publication_of c (some r) = r.id == c.release_id && r.manifest_hash == c.manifest_hash

abbrev points_at : Candidate → Leadership → Option CurrentRelease → Bool
points_at c l none = false
points_at c l (some pointer) =
    pointer.release_id == c.release_id
    && is_bytes_of c (find_first (λ r. r.id == pointer.release_id) l.content_releases)
    && is_publication_of c
        (find_first (λ r. r.studio_publication_id == c.publication_id) l.content_releases)

-- Leadership's tables show the candidate: the pointer is on its release, whose row has its manifest, and
-- the release of its publication is that one.
abbrev pub shows : Candidate → Leadership → Bool
shows c l = points_at c l l.current_release

-- The code's own test is right about the tables.
pub is_shown-shows :
    (test : Matcher) (c : Candidate) (l : Leadership) → is_shown test c l ≡ shows c l
unfolding is_shown reconcile_ambiguous_promotion database_identity identity_matches
is_shown-shows test c l = elim (Option-cases l.current_release) [
  | inl e ↦ rw e refl
  | inr (p, e) ↦ elim (Option-cases (find_first (λ r. r.id == p.release_id) l.content_releases)) [
    | inl f ↦ rw (e, f) (ground arith)
    | inr (r, f) ↦
        elim (Option-cases
          (find_first (λ r. r.studio_publication_id == c.publication_id) l.content_releases)) [
            | inl g ↦ rw (e, f, g) (ground arith)
            | inr (q, g) ↦ rw (e, f, g) (ground arith)
          ]
  ]
]
