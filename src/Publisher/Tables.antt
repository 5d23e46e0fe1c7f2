-- ===== src/Publisher/Tables.antt =====
-- The tables that the publisher writes (packages/db/prisma/schema.prisma): the editor's, and those of
-- the publications.
use situation_studio.Prelude.{List, Uuid, Digest, ℕ, String, Bool, Option}
use situation_studio.Store.{
  Db, Visibility, PublicationEvent, PublicationAttempt, PublicationJob, ReleaseObservation,
  ProductionVersion, VerificationReceipt,
}

pub record Studio : Type 0 where
  pub db : Db
  pub events : List PublicationEvent
  pub attempts : List PublicationAttempt
  pub observations : List ReleaseObservation
  pub versions : List ProductionVersion
  pub receipts : List VerificationReceipt
  -- The publications of the queued backup receipts.
  pub backups : List Uuid

-- Leadership's `content_releases` and `current_release`, which the publisher queries.
pub record Release : Type 0 where
  pub id : Uuid
  pub studio_publication_id : Uuid
  pub manifest_hash : Digest
  pub validated : Bool

pub record CurrentRelease : Type 0 where
  pub release_id : Uuid
  pub generation : ℕ

pub record Leadership : Type 0 where
  pub content_releases : List Release
  pub current_release : Option CurrentRelease

-- `CandidateSnapshot`, as far as a publication's course depends on it; `sealed` is whether it has the
-- evidence of a preflight, and the last three stand for `targetBundle`.
pub record Candidate : Type 0 where
  pub publication_id : Uuid
  pub release_id : Uuid
  pub parent_release_id : Uuid
  pub expected_generation : ℕ
  pub manifest_hash : Digest
  pub candidate_hash : Option Digest
  pub compiler_digest : Option Digest
  pub artifact_count : ℕ
  pub edge_count : ℕ
  pub sealed : Bool
  pub title : String
  pub visibility : Visibility
  pub bundle_hash : Digest

abbrev pub publications : Studio → List PublicationJob
publications s = s.db.publications

abbrev pub with_publications : List PublicationJob → Studio → Studio
with_publications jobs s = record s { db = record (s.db) { publications = jobs } }
