-- ===== src/System.antt =====
-- The programs over one database: what the worker writes and the editor's commands, one after another.
-- `readyDependents` writes each step by itself.
pub mod Invariant
use situation_studio.Prelude.{
  ◌≡◌, true, false, Bool, Option, any, Millis, Uuid, Digest, String, ℕ, ◌==◌,
}
use situation_studio.Prelude.Results.{ok}
use situation_studio.Store.{Checkout, Draft, Revision, Db, ReviewJob, ReviewStep, FailurePhase}
use situation_studio.Store.Keys.{one_active_review}
use situation_studio.Worker.Failure.{AdapterFailure, Timing, Matcher, lease_duration_ms}
use situation_studio.Worker.Lane.{claim_next_review}
use situation_studio.Worker.Steps.{Authority, Stage, ready_step, cancel_run}
use situation_studio.Worker.Success.{renew_review_lease, write_success}
use situation_studio.Worker.Failing.{settle_failure}
use situation_studio.Worker.Application.{settle_application_failure}
use situation_studio.Worker.Repair.{write_repair}
use situation_studio.Worker.Running.{Start, write_start, write_completion}
use situation_studio.Workflow.Revision.{Save, create_revision}
use situation_studio.Workflow.Checkout.{Production, checkout_situation, start_over_from_production}
use situation_studio.Workflow.Review.{Outside, Command, ReviewCommand, queue_review, cancel_review}
use situation_studio.Workflow.Retry.{retry_review}
use situation_studio.Workflow.Checkin.{TextOperations, check_in_situation, force_check_in_situation}

abbrev pub cancelled_run : Millis → Uuid → Db → Db
cancelled_run now run_id db = record db { runs = cancel_run now run_id db.runs }

abbrev pub readied_step : Uuid → Db → Db
readied_step step_id db = record db { jobs = ready_step step_id db.jobs }

-- Writes that commit. The worker's claim, its lease's renewal and the editor's commands are whole
-- transactions. A worker's reports run at the default isolation level, where what their check has read
-- may be out of date when they write: their steps are the writes alone, of any job, held or not, and a
-- job that is queued again satisfies the unique index of active reviews.
pub data Step (test : Matcher) : Db → Db → Type 0 where
  claimed :
      {db db' : Db} (timing : Timing) (token : Uuid) (lease : Millis) (id : Option Uuid)
      → lease_duration_ms timing ≡ ok lease
      → claim_next_review timing token db ≡ ok (id, db')
      → Step test db db'
  renewed :
      {db db' : Db} (timing : Timing) (a : Authority)
      → renew_review_lease timing a db ≡ ok db'
      → Step test db db'
  started : {db : Db} (x : Start) → Step test db (write_start x db).1
  committed :
      {db db' : Db} (timing : Timing) (g : Stage) (hash : Digest) (b : Bool)
      → write_success timing g hash db ≡ ok (b, db')
      → Step test db db'
  ended : {db : Db} (now : Millis) (run_id : Uuid) → Step test db (cancelled_run now run_id db)
  readied : {db : Db} (step_id : Uuid) → Step test db (readied_step step_id db)
  failed :
      {db : Db} (timing : Timing) (g : Stage) (attempt : ℕ) (phase : FailurePhase)
      (e : AdapterFailure) (retry_at : Option Millis) (step : ReviewStep)
      → ((k : Uuid)
          → one_active_review k (settle_failure test timing g attempt phase e retry_at step db).jobs
            ≡ true)
      → Step test db (settle_failure test timing g attempt phase e retry_at step db)
  broken :
      {db : Db} (timing : Timing) (g : Stage) (phase : FailurePhase) (e : AdapterFailure)
      (step : ReviewStep)
      → Step test db (settle_application_failure test timing g.authority g.step_id phase e step db)
  repaired :
      {db db' : Db} (a : Authority) (builder_id audit_id : Uuid) (b : Bool)
      → write_repair a builder_id audit_id db ≡ ok (b, db')
      → Step test db db'
  completed :
      {db db' : Db} (now : Millis) (id job_id : Uuid) (input : Revision)
      → write_completion now id job_id input db ≡ ok db'
      → Step test db db'
  queued :
      {db db' : Db} (out : Outside) (input : Command) (job : ReviewJob)
      → any (λ j. j.id == out.fresh_id) db.jobs ≡ false
      → queue_review out input db ≡ ok (job, db')
      → Step test db db'
  cancelled :
      {db db' : Db} (now : Millis) (input : ReviewCommand) (reason : Option String)
      → cancel_review now input reason db ≡ ok (tt, db')
      → Step test db db'
  retried :
      {db db' : Db} (out : Outside) (input : ReviewCommand)
      → retry_review out input db ≡ ok (tt, db')
      → Step test db db'
  checked_in :
      {db db' : Db} (now : Millis) (actor_id checkout_id : Uuid) (fence : ℕ)
      → check_in_situation now actor_id checkout_id fence db ≡ ok (tt, db')
      → Step test db db'
  checked_out :
      {db db' : Db} (out : Production) (situation_id actor_id : Uuid) (c : Checkout)
      → any (λ x. x.id == out.checkout_id) db.checkouts ≡ false
      → any (λ j. j.checkout_id == out.checkout_id) db.jobs ≡ false
      → checkout_situation out situation_id actor_id db ≡ ok (c, db')
      → Step test db db'
  started_over :
      {db db' : Db} (out : Production) (actor_id checkout_id : Uuid) (fence : ℕ) (d : Draft)
      → start_over_from_production out actor_id checkout_id fence db ≡ ok (d, db')
      → Step test db db'
  saved :
      {db db' : Db} (now : Millis) (id : Uuid) (input : Save) (r : Revision)
      → create_revision now id input db ≡ ok (r, db')
      → Step test db db'
  forced :
      {db db' : Db} (text : TextOperations) (now : Millis) (admin_id situation_id : Uuid)
      (reason : String)
      → force_check_in_situation text now admin_id situation_id reason db ≡ ok (tt, db')
      → Step test db db'

pub data Run (test : Matcher) : Db → Db → Type 0 where
  stay : {db : Db} → Run test db db
  then : {db db' db'' : Db} → Step test db db' → Run test db' db'' → Run test db db''
