-- ===== src/Publisher/Attempts.antt =====
-- The attempts of a publication: `startPublicationAttempt` of apps/publisher/src/index.ts.
pub mod Counting
use situation_studio.Prelude.{
  ℕ, suc, Bool, ◌&&◌, Option, none, some, List, [], ◌∷◌, ◌++◌, Uuid, Millis, ◌==◌, holds, is_none,
  if◌then◌else◌,
}
use situation_studio.Prelude.Rows.{update_many, find_first}
use situation_studio.Prelude.Results.{Result, ok, err}
use situation_studio.Store.{
  PublicationJob, PublicationAttempt, FailureCode, ReconciledState, interrupted_before_retry,
}
use situation_studio.Publisher.Tables.{Studio, publications}
use situation_studio.Publisher.Failure.{PublisherError, error}
use situation_studio.Publisher.Events.{greatest}

abbrev pub attempt_of : Uuid → PublicationAttempt → Bool
attempt_of job_id a = a.job_id == job_id

-- An attempt of the job without `finishedAt`.
abbrev pub is_open : Uuid → PublicationAttempt → Bool
is_open job_id a = attempt_of job_id a && is_none a.finished_at

abbrev pub finish_attempt :
    Millis → Option FailureCode → ReconciledState → PublicationAttempt → PublicationAttempt
finish_attempt now code state a = record a {
  finished_at = some now;
  failure_code = code;
  reconciled_state = some state;
}

abbrev pub new_attempt : Uuid → Uuid → ℕ → PublicationAttempt
new_attempt id job_id n = record {
  id = id;
  job_id = job_id;
  attempt = n;
  finished_at = none;
  failure_code = none;
  reconciled_state = none;
}

-- The latest attempt's number and one more.
unfoldable pub next_attempt : Uuid → List PublicationAttempt → ℕ
next_attempt job_id attempts = suc (greatest (attempt_of job_id) (λ a. a.attempt) attempts)

unfoldable pub open_attempt : Millis → Uuid → Uuid → Studio → PublicationAttempt × Studio
open_attempt now id job_id s =
    let n = next_attempt job_id s.attempts in
    let closed =
      update_many (is_open job_id)
        (finish_attempt now (some FailureCode.publisher_process_interrupted)
          (interrupted_before_retry n))
        s.attempts in
    (new_attempt id job_id n, record s { attempts = closed ++ new_attempt id job_id n ∷ [] })

abbrev pub start_with :
    Millis
    → Uuid
    → Uuid
    → Studio
    → Option PublicationJob
    → Result PublisherError (PublicationJob × PublicationAttempt × Studio)
start_with now id token s none = err (error "No PublicationJob found")
start_with now id token s (some job) =
    if holds job.claim_token token
    then (let (attempt, s') = open_attempt now id job.id s in ok (job, attempt, s'))
    else err (error "Publication authority was lost before the attempt could start.")

-- `startPublicationAttempt` with a claim token; `id` is the new row's.
unfoldable pub start_publication_attempt :
    Millis
    → Uuid
    → Uuid
    → Uuid
    → Studio
    → Result PublisherError (PublicationJob × PublicationAttempt × Studio)
start_publication_attempt now id job_id token s =
    start_with now id token s (find_first (λ j. j.id == job_id) (publications s))
