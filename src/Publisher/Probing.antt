-- ===== src/Publisher/Probing.antt =====
-- The probes of the running application, each tried again until it converges
-- (`convergedRuntimeIdentity`, `convergedRuntimeCapabilities` and `convergedRuntimeRouteProof` of
-- apps/publisher/src/index.ts). A wait between two probes is in the times that the world gives.
use situation_studio.Prelude.{
  ◌+◌, ◌-◌, ℕ, zero, suc, Bool, true, false, Uuid, Millis, ltb, leb, if◌then◌else◌,
}
use situation_studio.Prelude.Results.{Result, ok, err}
use situation_studio.Store.{FailureCode}
use situation_studio.Worker.Failure.{or_else}
use situation_studio.Publisher.Tables.{Candidate}
use situation_studio.Publisher.Failure.{
  PublisherError, capability, verification, runtime_convergence,
}
use situation_studio.Publisher.Identity.{Identity}
use situation_studio.Publisher.Action.{
  World, Action, ProbeError, invalid_response, Capabilities, RouteProof, ◌>>=◌, ◌>>◌, give, throw,
  try_catch, step_on,
}
use situation_studio.Publisher.Promotion.{renew}

abbrev pub at_least : ℕ → ℕ → ℕ
at_least low n = if ltb n low then low else n

abbrev pub at_most : ℕ → ℕ → ℕ
at_most high n = if ltb high n then high else n

-- `Math.max(1, Math.min(100, attempts ?? 100))`.
unfoldable pub identity_attempts : World → ℕ
identity_attempts world = at_least 1 (at_most 100 (or_else world.attempts 100))

-- `Math.max(1, Math.min(120_000, deadlineMs ?? 45_000))`.
unfoldable pub identity_deadline_ms : World → Millis
identity_deadline_ms world = at_least 1 (at_most 120_000 (or_else world.deadline_ms 45_000))

-- `Math.max(1, attempts ?? 24)`.
unfoldable pub probe_attempts : World → ℕ
probe_attempts world = at_least 1 (or_else world.attempts 24)

-- What the last probe found.
pub data Reason : Type 0 where
  identity_mismatch unreachable invalid : Reason

-- `PublisherRuntimeConvergenceError`.
unfoldable pub convergence_error : Reason → PublisherError
convergence_error identity_mismatch = runtime_convergence FailureCode.runtime_identity_mismatch
convergence_error invalid = runtime_convergence FailureCode.runtime_health_invalid_response
convergence_error unreachable = runtime_convergence FailureCode.runtime_health_unavailable

abbrev pub reason_of : ProbeError → Reason
reason_of invalid_response = invalid
reason_of _ = unreachable

-- The answer of the world at this step.
unfoldable pub ask {ℓ} : {A : Type ℓ} → (ℕ → A) → Action A
ask f p = (ok (f p.tick), step_on p)

unfoldable pub until_deadline {ℓ} : {A : Type ℓ} → World → Millis → Reason → Action A → Action A
until_deadline world deadline reason rest = do
  now ← ask world.now
  if leb deadline now then throw (convergence_error reason) else rest

abbrev pub go_on : World → Millis → (Reason → Action Identity) → Reason → Action Identity
go_on world deadline rest reason = until_deadline world deadline reason (rest reason)

abbrev pub settle :
    World
    → (Identity → Bool)
    → Millis
    → (Reason → Action Identity)
    → Result ProbeError Identity
    → Action Identity
settle world matches deadline rest (ok i) =
    if matches i then give i else go_on world deadline rest identity_mismatch
settle world matches deadline rest (err e) = go_on world deadline rest (reason_of e)

abbrev pub probe_once :
    World
    → Action (Unit {0})
    → (Identity → Bool)
    → Millis
    → (Reason → Action Identity)
    → Reason
    → Action Identity
probe_once world before_probe matches deadline rest reason =
    before_probe
    >> until_deadline world deadline reason
        (ask world.runtime_identity >>= settle world matches deadline rest)

unfoldable pub identity_loop :
    World → Action (Unit {0}) → (Identity → Bool) → Millis → ℕ → Reason → Action Identity
identity_loop world before_probe matches deadline zero reason = throw (convergence_error reason)
identity_loop world before_probe matches deadline (suc attempts) reason =
    let rest = identity_loop world before_probe matches deadline attempts in
    until_deadline world deadline reason
      (probe_once world before_probe matches deadline rest reason)

-- `convergedRuntimeIdentity`: `matches` is whether an identity is the expected one.
unfoldable pub converged_runtime_identity :
    World → Action (Unit {0}) → (Identity → Bool) → Action Identity
converged_runtime_identity world before_probe matches = do
  started ← ask world.now
  identity_loop world before_probe matches (started + identity_deadline_ms world)
      (identity_attempts world) unreachable

unfoldable pub probe_loop {ℓ} : {A : Type ℓ} → (PublisherError → Bool) → Action A → ℕ → Action A
probe_loop is_final probe zero = probe
probe_loop is_final probe (suc more) =
    let rest = probe_loop is_final probe more in
    try_catch probe (λ e. if is_final e then throw e else rest)

-- An error of its class that is not retryable ends the loop; any other is tried again.
abbrev pub capability_is_final : PublisherError → Bool
capability_is_final (capability code false) = true
capability_is_final _ = false

abbrev pub route_is_final : PublisherError → Bool
route_is_final (verification code false) = true
route_is_final _ = false

abbrev pub lift {ℓ} : {A : Type ℓ} → Result PublisherError A → Action A
lift (ok a) = give a
lift (err e) = throw e

unfoldable pub converged_runtime_capabilities : World → Uuid → Uuid → Action Capabilities
converged_runtime_capabilities world job_id token =
    probe_loop capability_is_final
      (renew world job_id token >> (ask world.runtime_capabilities >>= lift))
      (probe_attempts world - 1)

unfoldable pub converged_runtime_route_proof : World → Uuid → Uuid → Candidate → Action RouteProof
converged_runtime_route_proof world job_id token c =
    probe_loop route_is_final
      (renew world job_id token >> (ask (λ n. world.runtime_route_proof n c) >>= lift))
      (probe_attempts world - 1)
