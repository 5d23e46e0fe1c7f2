-- ===== src/Worker/Steps.antt =====
-- The rows that a worker names while it processes a job: the job by id, state, fence and claim token,
-- its steps and runs by their ids (apps/review-worker/src/review.ts, `readyDependents`).
pub mod Untouched
use situation_studio.Prelude.{
  ℕ, String, Bool, false, ◌&&◌, some, List, [], ◌∷◌, ◌++◌, Millis, Uuid, ◌==◌, str_eq,
  if◌then◌else◌, any, all, is_none, holds, map,
}
use situation_studio.Prelude.Rows.{update_many, select}
use situation_studio.Store.{
  ReviewJob, ReviewStep, AgentRun, StepState, AgentFailureClass, is_running, step_is_pending,
  step_is_succeeded,
}

-- What a worker holds while it processes a job.
pub record Authority : Type 0 where
  pub job_id : Uuid
  pub fence : ℕ
  pub claim_token : Uuid

unfoldable pub is_held : Authority → ReviewJob → Bool
is_held a j =
    j.id == a.job_id
    && is_running j.state
    && j.fence == a.fence
    && holds j.claim_token a.claim_token

-- Steps are named by their own ids, in whichever job they stand.
unfoldable pub update_steps :
    (ReviewJob → ReviewStep → Bool) → (ReviewStep → ReviewStep) → List ReviewJob → List ReviewJob
update_steps p f [] = []
update_steps p f (j ∷ js) = record j { steps = update_many (p j) f j.steps } ∷ update_steps p f js

unfoldable pub all_steps : List ReviewJob → List ReviewStep
all_steps [] = []
all_steps (j ∷ js) = j.steps ++ all_steps js

unfoldable pub update_run : Uuid → (AgentRun → AgentRun) → List AgentRun → List AgentRun
update_run id f = update_many (λ r. r.id == id) f

unfoldable pub succeeded_roles : List ReviewStep → List String
succeeded_roles [] = []
succeeded_roles (s ∷ ss) =
    let rest = succeeded_roles ss in if step_is_succeeded s.state then s.role_code ∷ rest else rest

-- A waiting step all of whose dependencies have succeeded.
unfoldable pub is_due : List String → ReviewStep → Bool
is_due succeeded s =
    step_is_pending s.state && all (λ d. any (λ r. str_eq r d) succeeded) s.dependencies

-- The steps that the loop over one job's steps writes; they are read before the first write.
unfoldable pub due_steps : List ReviewStep → List Uuid
unfolding succeeded_roles is_due
due_steps steps = map (λ s. s.id) (select (is_due (succeeded_roles steps)) steps)

-- One write of that loop, which asks for no claim.
unfoldable pub ready_step : Uuid → List ReviewJob → List ReviewJob
unfolding update_steps
ready_step step_id =
    update_steps (λ _ s. s.id == step_id && step_is_pending s.state)
      (λ s. record s { state = StepState.ready })

-- A run that outlived the authority of its worker.
unfoldable pub cancel_run : Millis → Uuid → List AgentRun → List AgentRun
cancel_run now run_id =
    update_many (λ r. r.id == run_id && is_none r.finished_at)
      (λ r. record r {
        failure_class = some AgentFailureClass.cancelled;
        retryable = some false;
        finished_at = some now;
      })

-- The stage that a worker reports on.
pub record Stage : Type 0 where
  pub authority : Authority
  pub step_id : Uuid
  pub run_id : Uuid
  -- Whether `providerAttemptsMetadataSchema` takes the attempts that the provider's adapter reported.
  pub metadata_is_valid : Bool
