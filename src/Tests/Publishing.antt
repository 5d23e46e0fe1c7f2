-- ===== src/Tests/Publishing.antt =====
-- A publication on concrete tables: the theorems of the publisher applied to one run.
use situation_studio.Prelude.{
  ◌+◌, ◌≡◌, ◌≢◌, refl, Bool, true, false, ◌&&◌, not, none, some, [], ◌∷◌, arith, Uuid, String, any,
  ◌==◌,
}
use situation_studio.Prelude.Rows.{find_first, count, update_many, select}
use situation_studio.Prelude.Members.{In}
use situation_studio.Prelude.Results.{Result, ok, err}
use situation_studio.Samples.{saved_db}
use situation_studio.Store.{
  PublicationJob, PublicationState, FailureCode, EventKind, number, Visibility, needs_recovery,
}
use situation_studio.Publisher.Tables.{Studio, Leadership, Candidate, publications}
use situation_studio.Publisher.Failure.{
  PublisherError, error, candidate_contract_error, publication_failure_code,
}
use situation_studio.Publisher.Events.{greatest, append_publication_event, of_job}
use situation_studio.Publisher.Events.Numbering.{Numbered-nil}
use situation_studio.Publisher.Events.Appending.{EventsNumbered, append_idempotent}
use situation_studio.Publisher.Attempts.{
  attempt_of, start_publication_attempt, open_attempt, next_attempt,
}
use situation_studio.Publisher.Attempts.Counting.{AttemptsInv}
use situation_studio.Publisher.Lease.{owned_update, renew_publication_lease, publication_lease_ms}
use situation_studio.Publisher.Claim.{
  claim_publication_job, first_of, next_publication, is_claimable, is_live, comes_before,
}
use situation_studio.Publisher.Claim.Granting.{claim-Exclusive}
use situation_studio.Publisher.Lifecycle.{Follows}
use situation_studio.Publisher.Action.{
  World, Progress, unavailable, ◌>>=◌, ◌>>◌, write, transaction, try_catch, give, throw, query,
}
use situation_studio.Publisher.Identity.{
  reconcile_ambiguous_promotion, database_identity, identity_matches,
}
use situation_studio.Publisher.Outcome.{terminalize_publication_outcome, update_attempt}
use situation_studio.Publisher.Probing.{ask}
use situation_studio.Publisher.Promotion.{renew}
use situation_studio.Publisher.Steps.{Claimed, begin, set_candidate, persist_snapshot}
use situation_studio.Publisher.Course.{course, publish}
use situation_studio.Publisher.Process.{
  process_publication_job, handle, variables, settle_and_end, settle_promotion, end_failed,
  terminalize,
}
use situation_studio.Publisher.Run.Quiet.{OthersLawful}
use situation_studio.Publisher.Run.Showing.{shows}
use situation_studio.Publisher.Run.Guarantees.{run_refines, failed_unshown}

abbrev pub job : PublicationJob
job = record {
  id = 30;
  publication_id = 31;
  situation_id = 1;
  target_revision_id = 20;
  checkout_id = 10;
  checkout_fence = 1;
  state = PublicationState.verifying;
  preflight_receipt_id = some 32;
  base_manifest_hash = some 40;
  expected_pointer_generation = none;
  observed_release_id = none;
  leadership_release_id = none;
  leadership_manifest_hash = none;
  previous_release_id = none;
  claim_token = some 5;
  lease_expires_at = some 900;
  created_at = 100;
  started_at = some 200;
  finished_at = none;
  failure_code = none;
}

abbrev pub studio : Studio
studio = record {
  db = record saved_db { publications = job ∷ [] };
  events = [];
  attempts = [];
  observations = [];
  versions = [];
  receipts = [];
  backups = [];
}

abbrev pub unsealed : Candidate
unsealed = record {
  publication_id = 31;
  release_id = 50;
  parent_release_id = 49;
  expected_generation = 3;
  manifest_hash = 41;
  candidate_hash = none;
  compiler_digest = none;
  artifact_count = 1;
  edge_count = 0;
  sealed = false;
  title = "Late";
  visibility = Visibility.public;
  bundle_hash = 7;
}

-- Leadership shows another release, or the candidate's.
abbrev pub leadership : Uuid → Leadership
leadership shown = record {
  content_releases =
      record { id = 49; studio_publication_id = 30; manifest_hash = 40; validated = true }
      ∷ record { id = 50; studio_publication_id = 31; manifest_hash = 41; validated = true }
      ∷ [];
  current_release = some (record { release_id = shown; generation = 3 });
}

abbrev pub world : Result PublisherError Candidate → World
world candidate = record {
  now = λ n. 1000 + n;
  fresh_id = λ n. 60 + n;
  others = λ n s. s;
  fault = λ n. none;
  no_reply = λ n. none;
  commit_lands = λ n. false;
  test = λ pattern message. false;
  is_git_identity = λ s. true;
  producer_commit = "commit";
  attempts = none;
  deadline_ms = none;
  candidate_from_persisted = λ j l. candidate;
  matches_release = λ c l. ok tt;
  insert_release = λ c l. ok l;
  promote_release = λ c l. ok l;
  restore_release = λ c n l. ok l;
  runtime_identity = λ n. err unavailable;
  runtime_capabilities = λ n. err (error "down");
  runtime_route_proof = λ n c. err (error "down");
}

pub nobody : (candidate : Result PublisherError Candidate) → OthersLawful (world candidate)
nobody candidate n s h = h

abbrev pub start : Uuid → Progress
start shown = record {
  studio = studio;
  leadership = leadership shown;
  tick = 0;
  promoted = false;
  promotion_attempted = false;
  promotion_state_known = true;
  runtime_verified = false;
  active_candidate = none;
}

abbrev code_text : FailureCode → String
code_text code = "CODE"

pub no_events : EventsNumbered studio
no_events i = Numbered-nil (of_job i) (λ e. e.sequence)

pub no_attempts : AttemptsInv []
unfolding count
no_attempts i = (Numbered-nil (attempt_of i) (λ a. a.attempt), omega arith)

run_refines_example :
    Follows (publications studio) (
      publications
        (process_publication_job (world (ok unsealed)) code_text 30 5 (start 49)).1.studio)
    × EventsNumbered
        (process_publication_job (world (ok unsealed)) code_text 30 5 (start 49)).1.studio
    × AttemptsInv
        (process_publication_job (world (ok unsealed)) code_text 30 5 (start 49)).1.studio.attempts
run_refines_example =
    run_refines (world (ok unsealed)) (nobody (ok unsealed)) code_text 30 5 (start 49) no_events
      no_attempts refl

abbrev end_of_run : Progress
end_of_run = (process_publication_job (world (ok unsealed)) code_text 30 5 (start 49)).1

failed_unshown_example : shows unsealed end_of_run.leadership ≡ false
unfolding process_publication_job begin renew write transaction renew_publication_lease owned_update
    count ask start_publication_attempt open_attempt next_attempt greatest find_first update_many
    try_catch course give throw query set_candidate publish persist_snapshot handle variables
    settle_and_end settle_promotion end_failed terminalize terminalize_publication_outcome
    update_attempt candidate_contract_error publication_failure_code append_publication_event
    reconcile_ambiguous_promotion database_identity identity_matches ◌>>=◌ ◌>>◌
failed_unshown_example =
    failed_unshown (world (ok unsealed)) (nobody (ok unsealed)) code_text 30 5 (start 49) no_events
      no_attempts refl end_of_run unsealed refl refl refl

abbrev claimed : Claimed
claimed = record { job = job; attempt_id = 60; token = 5 }

append_idempotent_example :
    append_publication_event 30 EventKind.succeeded
      (number 50 ∷ [])
      (append_publication_event 30 EventKind.succeeded (number 50 ∷ []) studio)
    ≡ append_publication_event 30 EventKind.succeeded (number 50 ∷ []) studio
append_idempotent_example = append_idempotent 30 EventKind.succeeded (number 50 ∷ []) studio

abbrev claimed_studio : Studio
claimed_studio = (claim_publication_job 1000 6 studio).1

claim-Exclusive_example :
    (any (λ j. needs_recovery j.state) (publications studio) ≡ false)
    × ((j : PublicationJob) × In j (publications studio)
        × (j.id ≡ 30)
        × (is_claimable 1000 j ≡ true)
        × ((k : PublicationJob)
            → In k (publications studio)
            → is_claimable 1000 k ≡ true
            → comes_before k j ≡ false))
    × ((k : PublicationJob) × In k (publications claimed_studio)
        × (k.id ≡ 30)
        × (k.claim_token ≡ some 6)
        × (k.lease_expires_at ≡ some (1000 + publication_lease_ms))
        × (is_live 1000 k ≡ true))
    × (any (λ j. is_live 1000 j && not (j.id == 30)) (publications claimed_studio) ≡ false)
    × ((lost : PublisherError) (old : Uuid) (states : PublicationState → Bool)
          (write : PublicationJob → PublicationJob)
        → old ≢ 6
        → owned_update lost 30 old states write claimed_studio ≡ err lost)
unfolding claim_publication_job next_publication first_of is_claimable is_live select update_many
claim-Exclusive_example = claim-Exclusive 1000 6 30 studio claimed_studio refl
