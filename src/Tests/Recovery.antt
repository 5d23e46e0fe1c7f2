-- ===== src/Tests/Recovery.antt =====
-- A recorded success and a recovery on concrete tables.
use situation_studio.Prelude.{◌≡◌, refl, true, none, some, [], ◌∷◌}
use situation_studio.Prelude.Rows.{find_first, count, update_many}
use situation_studio.Prelude.Results.{ok, err, Always}
use situation_studio.Samples.{is_ok}
use situation_studio.Store.{PublicationJob, PublicationState, Situation, Visibility}
use situation_studio.Publisher.Tables.{Studio, publications}
use situation_studio.Publisher.Failure.{error}
use situation_studio.Publisher.Events.{append_publication_event, greatest}
use situation_studio.Publisher.Events.Appending.{EventsNumbered}
use situation_studio.Publisher.Attempts.Counting.{AttemptsInv}
use situation_studio.Publisher.Identity.{Identity}
use situation_studio.Publisher.Lifecycle.{Follows}
use situation_studio.Publisher.Finalize.{
  Verified, finalize_success, observe, add_version, set_production, add_receipt, release_checkout,
  archive_draft, record_events, record_success, complete_job,
}
use situation_studio.Publisher.Outcome.{update_attempt}
use situation_studio.Publisher.Finalize.Recognizing.{finalize_recognized}
use situation_studio.Publisher.Process.{was_finalized}
use situation_studio.Publisher.Action.{World, Progress}
use situation_studio.Publisher.Recovery.{reconcile_recoveries}
use situation_studio.Publisher.Recovery.Restoring.{recovery_refines}
use situation_studio.Tests.Publishing.{job, studio, unsealed, world, start, no_events, no_attempts}

abbrev shown : Identity
shown = record { release_id = 49; manifest_hash = 40; generation = 3 }

-- Leadership shows the candidate.
abbrev promoted : Identity
promoted = record { release_id = 50; manifest_hash = 41; generation = 4 }

abbrev published_situation : Situation
published_situation = record {
  id = 1;
  slug = "late";
  title = "Late";
  visibility = Visibility.public;
  fence = 1;
  production_bundle_hash = none;
  production_release_id = none;
}

abbrev verifying_studio : Studio
verifying_studio = record studio {
  db = record (studio.db) { situations = published_situation ∷ [] };
  attempts =
      record {
        id = 60;
        job_id = 30;
        attempt = 1;
        finished_at = none;
        failure_code = none;
        reconciled_state = none;
      }
      ∷ [];
}

abbrev verified : Verified
verified = record {
  job = job;
  token = 5;
  attempt_id = 60;
  observation_id = 70;
  candidate = unsealed;
  identity = promoted;
  runtime = promoted;
  capabilities = record { commit = 1; capability_digest = 2 };
  route_proof = record { code = "AFFECTED_ROUTE_VERIFIED"; http_status = 200 };
}

finalize_recognized_example :
    Always
      (λ s. was_finalized 30 (some unsealed) s ≡ true)
      (finalize_success 2000 verified verifying_studio)
finalize_recognized_example = finalize_recognized 2000 verified verifying_studio

-- The call of the witness succeeds.
finalize_runs : is_ok (finalize_success 2000 verified verifying_studio) ≡ true
unfolding finalize_success observe add_version set_production add_receipt release_checkout
    archive_draft record_events record_success complete_job update_attempt find_first count
    update_many append_publication_event greatest
finalize_runs = refl

abbrev lost_job : PublicationJob
lost_job = record job { state = PublicationState.recovery_required; claim_token = none }

abbrev lost_studio : Studio
lost_studio = record studio { db = record (studio.db) { publications = lost_job ∷ [] } }

abbrev home_world : World
home_world = record (world (err (error "unused"))) { runtime_identity = λ n. ok shown }

abbrev home : Progress
home = record (start 49) { studio = lost_studio }

recovery_refines_example :
    Follows
      (publications lost_studio)
      (publications (reconcile_recoveries home_world (λ j. some 49) (lost_job ∷ []) home).1.studio)
    × EventsNumbered (reconcile_recoveries home_world (λ j. some 49) (lost_job ∷ []) home).1.studio
    × AttemptsInv
        (reconcile_recoveries home_world (λ j. some 49) (lost_job ∷ []) home).1.studio.attempts
recovery_refines_example =
    recovery_refines home_world (λ n s h. h) (λ j. some 49) (lost_job ∷ []) home no_events
      no_attempts
