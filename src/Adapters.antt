-- ===== src/Adapters.antt =====
-- A provider call that falls back from one provider to the other: `runWithFallback` and the bounds on a
-- provider's output (packages/ai-adapters/src/index.ts). The two command-line runs are the outside's.
pub mod Bounds
use situation_studio.Prelude.{
  ◌+◌, ◌-◌, ◌*◌, ℕ, String, Bool, true, false, ◌&&◌, not, Option, none, some, List, [], ◌∷◌, ◌++◌,
  Millis, ltb, leb, is_none, length, all, if◌then◌else◌,
}
use situation_studio.Prelude.Results.{Result, ok, err, ◌>>=◌}
use situation_studio.Store.{FailureClass, transient, invalid_output}
use situation_studio.Worker.Failure.{AdapterFailure, Thrown, adapter, error, value}

abbrev pub max_provider_bytes : ℕ
max_provider_bytes = 2097152

abbrev pub max_provider_attempt_duration_ms : Millis
max_provider_attempt_duration_ms = 7200000

pub data Provider : Type 0 where
  codex claude : Provider

pub data AttemptOutcome : Type 0 where
  succeeded failed timed_out : AttemptOutcome

-- `ProviderAttemptMetadata`.
pub record ProviderAttempt : Type 0 where
  pub provider : Provider
  pub model : String
  pub duration_ms : Millis
  pub outcome : AttemptOutcome
  pub failure_class : Option FailureClass
  pub retryable : Option Bool

-- The failure that is thrown, with the attempts that were made.
pub record FailedRun : Type 0 where
  pub failure : AdapterFailure
  pub attempts : List ProviderAttempt

-- One call of a provider: what it gave or threw, the clock before and after, and whether the call's
-- signal and the request's were aborted when it threw.
pub record Call {ℓ} (A : Type ℓ) : Type ℓ where
  pub provider : Provider
  pub model : String
  pub result : Result Thrown A
  pub started_at : Millis
  pub now : Millis
  pub aborted : Bool
  pub parent_aborted : Bool

-- `Math.min(MAX, Math.max(0, now() - startedAt))`: a clock that went back counts as 0.
unfoldable pub duration_ms : Millis → Millis → Millis
duration_ms started now =
    let elapsed = now - started in
    if ltb max_provider_attempt_duration_ms elapsed
    then max_provider_attempt_duration_ms
    else elapsed

abbrev is_cancelled : FailureClass → Bool
is_cancelled FailureClass.cancelled = true
is_cancelled _ = false

abbrev pub is_application : FailureClass → Bool
is_application FailureClass.application = true
is_application _ = false

abbrev review_provider_failed : AdapterFailure
review_provider_failed = record {
  failure_class = FailureClass.application;
  message = "Review provider failed.";
  retryable = false;
}

module _ {ℓ} {A : Type ℓ} where
  -- A call that its own signal cancelled has timed out.
  unfoldable pub provider_failure : Call A → Thrown → AdapterFailure
  provider_failure c (adapter f) =
      if is_cancelled f.failure_class && c.aborted && not c.parent_aborted
      then record {
        failure_class = transient;
        message = "Subscription CLI provider timed out.";
        retryable = true;
      }
      else f
  provider_failure c (error message) = review_provider_failed
  provider_failure c value = review_provider_failed

  unfoldable pub can_fall_back : Call A → AdapterFailure → Bool
  can_fall_back c f = not c.parent_aborted && not (is_application f.failure_class)

  unfoldable pub failed_provider_attempt : Call A → AdapterFailure → ProviderAttempt
  failed_provider_attempt c f = record {
    provider = c.provider;
    model = c.model;
    duration_ms = duration_ms c.started_at c.now;
    outcome = if c.aborted && not c.parent_aborted then timed_out else failed;
    failure_class = some f.failure_class;
    retryable = some f.retryable;
  }

  unfoldable pub successful_provider_attempt : Call A → ProviderAttempt
  successful_provider_attempt c = record {
    provider = c.provider;
    model = c.model;
    duration_ms = duration_ms c.started_at c.now;
    outcome = succeeded;
    failure_class = none;
    retryable = none;
  }

  abbrev second_with :
      Call A → List ProviderAttempt → Result Thrown A → Result FailedRun (A × List ProviderAttempt)
  second_with c before (ok a) = ok (a, before ++ successful_provider_attempt c ∷ [])
  second_with c before (err t) = err (record {
    failure = provider_failure c t;
    attempts = before ++ failed_provider_attempt c (provider_failure c t) ∷ [];
  })

  abbrev first_with :
      Call A → Call A → Result Thrown A → Result FailedRun (A × List ProviderAttempt)
  first_with c d (ok a) = ok (a, successful_provider_attempt c ∷ [])
  first_with c d (err t) =
      if can_fall_back c (provider_failure c t)
      then second_with d (failed_provider_attempt c (provider_failure c t) ∷ []) d.result
      else err (record {
        failure = provider_failure c t;
        attempts = failed_provider_attempt c (provider_failure c t) ∷ [];
      })

  -- `runWithFallback` in the mode of the command-line subscriptions: the second call is made only where
  -- the first fell back.
  unfoldable pub run_with_fallback : Call A → Call A → Result FailedRun (A × List ProviderAttempt)
  run_with_fallback c d = first_with c d c.result

abbrev pub output_too_large : AdapterFailure
output_too_large = record {
  failure_class = invalid_output;
  message = "Provider output exceeded the response limit.";
  retryable = false;
}

-- `appendBounded`: the chunk is kept, or the output is refused.
unfoldable pub append_bounded : List ℕ → ℕ → ℕ → Result AdapterFailure (List ℕ × ℕ)
append_bounded chunks chunk current =
    if ltb max_provider_bytes (current + chunk)
    then err output_too_large
    else ok (chunks ++ chunk ∷ [], current + chunk)

-- A stream of chunks, by their lengths.
unfoldable pub append_all : List ℕ → List ℕ → ℕ → Result AdapterFailure (List ℕ × ℕ)
append_all [] chunks current = ok (chunks, current)
append_all (chunk ∷ rest) chunks current =
    append_bounded chunks chunk current >>= λ kept. append_all rest kept.0 kept.1
