-- ===== src/Worker/Lane.antt =====
-- `claimNextReview`: which job the worker takes next, and the lease that it takes it under.
pub mod Claims
pub mod Exclusion
pub mod Invariant
mod Focusing
pub mod Claiming
use situation_studio.Prelude.{
  ℕ, ◌+◌, Bool, true, false, ◌&&◌, ◌||◌, not, Option, none, some, List, [], ◌∷◌, Millis, Uuid, leb,
  ltb, ◌==◌, if◌then◌else◌, any, is_none, holds,
}
use situation_studio.Prelude.Rows.{find_first, update_many, select}
use situation_studio.Prelude.Results.{Result, ok, err, ◌>>=◌}
use situation_studio.Store.{
  Db, ReviewJob, ReviewStep, AgentRun, Checkout, JobState, StepState, AgentFailureClass, is_queued,
  is_running, step_is_running,
}
use situation_studio.Store.Keys.{one_lane_owner, review_keys}
use situation_studio.Worker.Failure.{Timing, WorkerError, lease_duration_ms}

-- The checkout that a job was queued under is still held.
unfoldable pub checkout_active : List Checkout → ReviewJob → Bool
checkout_active checkouts job =
    any (λ c. c.id == job.checkout_id && c.fence == job.checkout_fence && is_none c.released_at)
      checkouts

unfoldable pub update_job : Uuid → (ReviewJob → ReviewJob) → List ReviewJob → List ReviewJob
update_job id f = update_many (λ j. j.id == id) f

abbrev pub set_lane : Bool → ReviewJob → ReviewJob
set_lane b j = record j { lane_owner = b }

-- ORDER BY queued_at, id
unfoldable pub is_before : ReviewJob → ReviewJob → Bool
is_before a b = ltb a.queued_at b.queued_at || a.queued_at == b.queued_at && ltb a.id b.id

abbrev earlier : ReviewJob → Option ReviewJob → ReviewJob
earlier a none = a
earlier a (some b) = if is_before b a then b else a

unfoldable pub earliest : List ReviewJob → Option ReviewJob
unfolding is_before
earliest [] = none
earliest (j ∷ js) = some (earlier j (earliest js))

unfoldable pub next_queued : List Checkout → List ReviewJob → Option ReviewJob
unfolding earliest checkout_active
next_queued checkouts jobs =
    earliest (select (λ j. is_queued j.state && checkout_active checkouts j) jobs)

-- A lane owner that can make no more progress.
abbrev is_settled : JobState → Bool
is_settled JobState.succeeded = true
is_settled JobState.failed = true
is_settled JobState.cancelled = true
is_settled _ = false

unfoldable pub is_stale : List Checkout → ReviewJob → Bool
unfolding checkout_active
is_stale checkouts j = not (checkout_active checkouts j) || is_settled j.state

-- The focused job, if it keeps the lane, and the jobs after a stale one has lost it.
unfoldable pub vacate : List Checkout → List ReviewJob → Option ReviewJob × List ReviewJob
unfolding is_stale update_job
vacate checkouts jobs = elim (find_first (λ j. j.lane_owner) jobs) [
  | none ↦ (none, jobs)
  | some j ↦
      if is_stale checkouts j then (none, update_job j.id (set_lane false) jobs) else (some j, jobs)
]

-- Without a focused job the next queued one takes the lane.
unfoldable pub focus :
    List Checkout
    → Option ReviewJob × List ReviewJob
    → Result WorkerError (Option ReviewJob × List ReviewJob)
unfolding next_queued update_job
focus checkouts (some j, jobs) = ok (some j, jobs)
focus checkouts (none, jobs) = elim (next_queued checkouts jobs) [
  | none ↦ ok (none, jobs)
  | some j ↦
      let jobs' = update_job j.id (set_lane true) jobs in
      if one_lane_owner jobs' then ok (some j, jobs') else err WorkerError.unique_violation
]

abbrev later : Option Millis → Millis → Bool
later none now = false
later (some t) now = ltb now t

abbrev pub not_before : Option Millis → Millis → Bool
not_before none now = false
not_before (some t) now = leb now t

-- A job whose retry is not due, or whose lease still runs, is left alone.
unfoldable pub must_wait : Millis → ReviewJob → Bool
must_wait now j =
    is_queued j.state && later j.retry_not_before now
    || is_running j.state && not_before j.lease_expires_at now

-- The runs and steps that a dead worker left open.
unfoldable pub interrupt_runs : Millis → ReviewJob → List AgentRun → List AgentRun
interrupt_runs now job =
    update_many
      (λ r. any (λ (s : ReviewStep). s.id == r.step_id) job.steps && is_none r.finished_at)
      (λ r. record r {
        failure_class = some AgentFailureClass.application;
        retryable = some false;
        finished_at = some now;
      })

unfoldable pub requeue_running : List ReviewStep → List ReviewStep
requeue_running =
    update_many (λ s. step_is_running s.state)
      (λ s. record s { state = StepState.ready; started_at = none; finished_at = none })

abbrev first_of_two : Option Millis → Millis → Millis
first_of_two none now = now
first_of_two (some t) now = t

unfoldable pub start_claim : Millis → Millis → Uuid → ReviewJob → ReviewJob
start_claim now lease token j = record j {
  state = JobState.running;
  started_at = some (first_of_two j.started_at now);
  claim_token = some token;
  lease_expires_at = some (now + lease);
  retry_not_before = none;
  failure_code = none;
  failure_reason_code = none;
  failure_phase = none;
  failure_stage_ordinal = none;
  failure_stage_role = none;
}

abbrev pub reset_if : Bool → ReviewJob → ReviewJob
reset_if b j = if b then record j { steps = requeue_running j.steps } else j

-- The rows after a claim. `j` is the selected row, as it was read.
unfoldable pub grant : Timing → Millis → Uuid → Db → ReviewJob → List ReviewJob → Db
unfolding interrupt_runs requeue_running start_claim update_job
grant timing lease token db j jobs = record db {
  jobs =
      update_job j.id (λ k. start_claim timing.now lease token (reset_if (is_running j.state) k))
        jobs;
  runs = if is_running j.state then interrupt_runs timing.now j db.runs else db.runs;
}

-- The last part of the transaction.
unfoldable pub take_over :
    Timing → Uuid → Db → ReviewJob → List ReviewJob → Result WorkerError (Option Uuid × Db)
unfolding must_wait grant
take_over timing token db j jobs =
    if must_wait timing.now j then ok (none, record db { jobs = jobs }) else do
      lease ← lease_duration_ms timing
      let db' = grant timing lease token db j jobs
      if review_keys j.situation_id db'.jobs
          then ok (some j.id, db')
          else err WorkerError.unique_violation

unfoldable pub claim_transaction : Timing → Uuid → Db → Result WorkerError (Option Uuid × Db)
unfolding vacate focus take_over
claim_transaction timing token db = do
  (selected, jobs) ← focus db.checkouts (vacate db.checkouts db.jobs)
  elim selected [
    | none ↦ ok (none, record db { jobs = jobs })
    | some j ↦ take_over timing token db j jobs
  ]

-- A unique violation means that another worker was first: nothing is claimed.
abbrev lost_race :
    Db → Result WorkerError (Option Uuid × Db) → Result WorkerError (Option Uuid × Db)
lost_race db (err WorkerError.unique_violation) = ok (none, db)
lost_race db r = r

-- The id of the claimed job, and the database; `token` is the new claim token.
unfoldable pub claim_next_review : Timing → Uuid → Db → Result WorkerError (Option Uuid × Db)
unfolding claim_transaction
claim_next_review timing token db = lost_race db (claim_transaction timing token db)
