-- ===== src/Samples.antt =====
-- One editor, one checkout, one saved revision: what the tests run on.
use situation_studio.Prelude.{◌+◌, Bool, true, false, none, some, [], ◌∷◌}
use situation_studio.Prelude.Results.{Result, ok, err}
use situation_studio.Store.{
  ReviewStep, Db, Checkout, Revision, SchemaVersion, ReviewJob, FailureClass,
}
use situation_studio.Worker.Failure.{Timing, Matcher, Thrown, adapter}
use situation_studio.Worker.Lane.{claim_next_review}
use situation_studio.Worker.Running.{Start}
use situation_studio.Worker.Steps.{Authority, Stage}
use situation_studio.Workflow.Review.{
  new_step, Outside, Command, ReviewCommand, queue_review, new_job,
}

abbrev pub held_checkout : Checkout
held_checkout = record {
  id = 10;
  situation_id = 1;
  holder_id = 2;
  draft_id = 3;
  fence = 1;
  released_at = none;
  release_reason = none;
  forced_by_id = none;
  force_reason = none;
  resulting_draft_hash = none;
}

abbrev pub saved_revision : Revision
saved_revision = record {
  id = 20;
  draft_id = 3;
  revision = 1;
  parent_id = none;
  bundle_hash = 7;
  schema_version = SchemaVersion.v2;
  contract_version = "v2";
  actor_id = 2;
  named_checkpoint = "Saved";
  body = some "# Situation";
}

abbrev pub saved_db : Db
saved_db = record {
  situations = [];
  checkouts = held_checkout ∷ [];
  drafts = [];
  revisions = saved_revision ∷ [];
  jobs = [];
  runs = [];
  proposals = [];
  publications = [];
  audit = [];
}

abbrev pub outside : Outside
outside = record {
  now = 1000;
  fresh_id = 100;
  step_id = λ n. n + 200;
  policy_version = "policy";
  context_hash = λ h c p. h;
  shared_snapshot = λ r s. ok tt;
  is_safe_mdx = λ s. true;
}

abbrev pub queue_command : Command
queue_command = record {
  actor_id = 2;
  checkout_id = 10;
  fence = 1;
  revision_id = 20;
  bundle_hash = 7;
}

abbrev pub cancel_command : ReviewCommand
cancel_command = record { actor_id = 2; job_id = 100; revision_id = 20; bundle_hash = 7 }

abbrev pub value_or {ℓ κ} : {E : Type ℓ} {A : Type κ} → A → Result E A → A
value_or d (ok a) = a
value_or d (err e) = d

abbrev pub is_ok {ℓ κ} : {E : Type ℓ} {A : Type κ} → Result E A → Bool
is_ok (ok a) = true
is_ok (err e) = false

abbrev pub timing : Timing
timing = record { now = 2000; lease_duration_ms = none; retry_delays_ms = none }

abbrev pub no_match : Matcher
no_match p s = false

-- A job as `queueReview` makes it, with one step.
abbrev pub authority : Authority
authority = record { job_id = 100; fence = 1; claim_token = 55 }

abbrev pub stage : Stage
stage = record { authority = authority; step_id = 201; run_id = 300; metadata_is_valid = true }

abbrev pub capacity_failure : Thrown
capacity_failure =
    adapter (record { failure_class = FailureClass.capacity; message = "busy"; retryable = true })

abbrev pub first_step : ReviewStep
first_step = new_step outside (record { ordinal = 1; role = "context-mapper"; dependencies = [] })

abbrev pub second_start : Start
second_start = record {
  run_id = 301;
  step_id = 201;
  attempt = 1;
  requested_provider = "codex";
  requested_model = "model";
  started_at = 2100;
}

-- The database after `queue_command`, and after a claim of its review.
abbrev pub queued_job : ReviewJob
queued_job = new_job outside held_checkout saved_revision

abbrev pub queued_db : Db
queued_db = (value_or (queued_job, saved_db) (queue_review outside queue_command saved_db)).1

abbrev pub claimed_db : Db
claimed_db = (value_or (none, saved_db) (claim_next_review timing 55 queued_db)).1
