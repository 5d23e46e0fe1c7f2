-- ===== src/Adapters/Bounds.antt =====
-- The bounds that a provider call keeps.
use situation_studio.Prelude.{
  ◌≡◌, ◌≤◌, ◌+◌, refl, inl, inr, ℕ, Bool, true, ◌&&◌, List, String, [], ◌∷◌, ◌++◌, arith,
  Bool-cases, leb, ltb, if◌then◌else◌, length, all, Millis,
}
use situation_studio.Prelude.Results.{Result, ok, err}
use situation_studio.Worker.Failure.{Thrown}
use situation_studio.Adapters.{
  Call, ProviderAttempt, FailedRun, run_with_fallback, first_with, second_with, duration_ms,
  can_fall_back, provider_failure, failed_provider_attempt, successful_provider_attempt,
  max_provider_attempt_duration_ms, max_provider_bytes, output_too_large, append_bounded,
  append_all,
}

abbrev duration_is_valid : ProviderAttempt → Bool
duration_is_valid a = leb a.duration_ms max_provider_attempt_duration_ms

-- `providerAttemptMetadataSchema`; `fits` is its bound on a model's name, 1 to 120 of JavaScript's units.
abbrev pub attempt_is_valid : (String → Bool) → ProviderAttempt → Bool
attempt_is_valid fits a = fits a.model && duration_is_valid a

-- `providerAttemptsMetadataSchema`
abbrev pub attempts_are_valid : (String → Bool) → List ProviderAttempt → Bool
attempts_are_valid fits attempts = leb (length attempts) 2 && all (attempt_is_valid fits) attempts

abbrev pub Both {ℓ κ} :
    {E : Type ℓ} {A : Type κ} → (A → Type 0) → (E → Type 0) → Result E A → Type 0
Both P Q (ok a) = P a
Both P Q (err e) = Q e

duration_bound :
    (started now : Millis) → leb (duration_ms started now) max_provider_attempt_duration_ms ≡ true
unfolding duration_ms
duration_bound started now = ground arith

module _ {ℓ} {A : Type ℓ} (fits : String → Bool) (c d : Call A) (first : fits c.model ≡ true)
    (second : fits d.model ≡ true) where
  abbrev Valid : Result FailedRun (A × List ProviderAttempt) → Type 0
  Valid =
      Both (λ r. attempts_are_valid fits r.1 ≡ true)
        (λ f. attempts_are_valid fits f.attempts ≡ true)

  second-Valid :
      (a : ProviderAttempt) (r : Result Thrown A)
      → attempt_is_valid fits a ≡ true
      → Valid (second_with d (a ∷ []) r)
  unfolding successful_provider_attempt failed_provider_attempt
  second-Valid a (ok x) h = ground (arith, second, duration_bound d.started_at d.now)
  second-Valid a (err t) h = ground (arith, second, duration_bound d.started_at d.now)

  first-Valid : (r : Result Thrown A) → Valid (first_with c d r)
  unfolding successful_provider_attempt failed_provider_attempt
  first-Valid (ok x) = ground (arith, first, duration_bound c.started_at c.now)
  first-Valid (err t) = elim (Bool-cases (can_fall_back c (provider_failure c t))) [
    | inl e ↦ rw e (
        second-Valid (failed_provider_attempt c (provider_failure c t)) d.result
          (ground (arith, first, duration_bound c.started_at c.now)))
    | inr e ↦ rw e (ground (arith, first, duration_bound c.started_at c.now))
  ]

  -- Where the names of both models fit the schema of an attempt's metadata, a call with a fallback
  -- reports, in its result or in its failure, attempts that this schema accepts, whatever the clock does:
  -- at most two, none longer than two hours.
  pub fallback_bounded :
      Both
        (λ r. attempts_are_valid fits r.1 ≡ true)
        (λ f. attempts_are_valid fits f.attempts ≡ true)
        (run_with_fallback c d)
  unfolding run_with_fallback
  fallback_bounded = first-Valid c.result

abbrev pub total : List ℕ → ℕ
total [] = 0
total (x ∷ xs) = x + total xs

snoc-append : (xs ys : List ℕ) (y : ℕ) → (xs ++ y ∷ []) ++ ys ≡ xs ++ y ∷ ys
snoc-append [] ys y = refl
snoc-append (x ∷ xs) ys y = rw (snoc-append xs ys y) refl

append_nil : (xs : List ℕ) → xs ++ [] ≡ xs
append_nil [] = refl
append_nil (x ∷ xs) = rw (append_nil xs) refl

-- What is left is kept or refused by its total.
append_rest :
    (rest kept : List ℕ) (current : ℕ)
    → current ≤ max_provider_bytes
    → append_all rest kept current ≡ (
        if leb (current + total rest) max_provider_bytes
        then ok (kept ++ rest, current + total rest)
        else err output_too_large)
unfolding append_all append_bounded
append_rest [] kept current h = ground (arith, append_nil kept)
append_rest (x ∷ xs) kept current h = elim (Bool-cases (ltb max_provider_bytes (current + x))) [
  | inl e ↦ rw e (ground arith)
  | inr e ↦ rw e (
      ground (
        arith,
        append_rest xs (kept ++ x ∷ []) (current + x) (ground arith),
        snoc-append kept xs x,
      ))
]

-- A provider's output is kept whole exactly where its chunks have two mebibytes at most; otherwise it
-- is refused as an output that exceeds the limit.
pub append_exactly :
    (chunks : List ℕ)
    → append_all chunks [] 0 ≡ (
        if leb (total chunks) max_provider_bytes
        then ok (chunks, total chunks)
        else err output_too_large)
append_exactly chunks = ground (arith, append_rest chunks [] 0 (omega arith))
