-- ===== src/Publisher/Run/Probes.antt =====
-- The probes of the running application keep what is known.
use situation_studio.Prelude.{◌-◌, ℕ, zero, suc, Bool, Uuid, Millis, leb}
use situation_studio.Prelude.Results.{Result, ok, err}
use situation_studio.Publisher.Tables.{Studio, Candidate}
use situation_studio.Publisher.Failure.{PublisherError}
use situation_studio.Publisher.Identity.{Identity}
use situation_studio.Publisher.Action.{
  World, Progress, Action, ProbeError, ◌>>=◌, ◌>>◌, give, throw,
}
use situation_studio.Publisher.Promotion.{renew}
use situation_studio.Publisher.Probing.{
  ask, Reason, identity_mismatch, unreachable, reason_of, convergence_error, until_deadline, settle,
  probe_once, go_on, identity_loop, identity_attempts, converged_runtime_identity, probe_loop, lift,
  probe_attempts, capability_is_final, route_is_final, converged_runtime_capabilities,
  converged_runtime_route_proof,
}
use situation_studio.Publisher.Hoare.{
  Keeps, bind-Keeps, then-Keeps, catch-Keeps, give-Keeps, throw-Keeps, if-Keeps,
}
use situation_studio.Publisher.Run.Quiet.{OthersLawful, Knowledge, Knows, renew-Keeps}

module _ (world : World) (lawful : OthersLawful world) (s0 : Studio) (K : Knowledge) where
  abbrev I : Progress → Type 0
  I = Knows s0 K

  pub ask-Keeps {ℓ} : {A : Type ℓ} (f : ℕ → A) → Keeps I (ask f)
  unfolding ask
  ask-Keeps f p h = h

  until_deadline-Keeps {ℓ} :
      {A : Type ℓ} (deadline : Millis) (reason : Reason) (rest : Action A)
      → Keeps I rest
      → Keeps I (until_deadline world deadline reason rest)
  unfolding until_deadline
  until_deadline-Keeps {A = A} deadline reason rest h =
      bind-Keeps I (ask world.now) _ (ask-Keeps world.now) (λ now.
        if-Keeps I (leb deadline now) (throw (convergence_error reason)) rest
          (throw-Keeps I A (convergence_error reason)) h)

  module _ (matches : Identity → Bool) (deadline : Millis) (rest : Reason → Action Identity)
      (h : (r : Reason) → Keeps I (rest r)) where
    settle-Keeps : (r : Result ProbeError Identity) → Keeps I (settle world matches deadline rest r)
    settle-Keeps (ok i) =
        if-Keeps I (matches i) (give i) (go_on world deadline rest identity_mismatch)
          (give-Keeps I i)
          (until_deadline-Keeps deadline identity_mismatch (rest identity_mismatch)
            (h identity_mismatch))
    settle-Keeps (err e) =
        until_deadline-Keeps deadline (reason_of e) (rest (reason_of e)) (h (reason_of e))

    probe_once-Keeps :
        (before : Action (Unit {0})) (reason : Reason)
        → Keeps I before
        → Keeps I (probe_once world before matches deadline rest reason)
    probe_once-Keeps before reason b = then-Keeps I before _ b (
        until_deadline-Keeps deadline reason
          (ask world.runtime_identity >>= settle world matches deadline rest)
          (bind-Keeps I (ask world.runtime_identity) (settle world matches deadline rest)
            (ask-Keeps world.runtime_identity) settle-Keeps))

  identity_loop-Keeps :
      (before : Action (Unit {0})) (matches : Identity → Bool) (deadline : Millis)
      → Keeps I before
      → (n : ℕ) (reason : Reason) → Keeps I (identity_loop world before matches deadline n reason)
  unfolding identity_loop
  identity_loop-Keeps before matches deadline b zero reason =
      throw-Keeps I Identity (convergence_error reason)
  identity_loop-Keeps before matches deadline b (suc n) reason =
      until_deadline-Keeps deadline reason _ (
        probe_once-Keeps matches deadline (identity_loop world before matches deadline n)
          (identity_loop-Keeps before matches deadline b n) before reason b)

  pub converged_runtime_identity-Keeps :
      (before : Action (Unit {0})) (matches : Identity → Bool)
      → Keeps I before
      → Keeps I (converged_runtime_identity world before matches)
  unfolding converged_runtime_identity
  converged_runtime_identity-Keeps before matches b =
      bind-Keeps I (ask world.now) _ (ask-Keeps world.now)
        (λ started. identity_loop-Keeps before matches _ b (identity_attempts world) unreachable)

  probe_loop-Keeps {ℓ} :
      {A : Type ℓ} (is_final : PublisherError → Bool) (probe : Action A)
      → Keeps I probe
      → (n : ℕ) → Keeps I (probe_loop is_final probe n)
  unfolding probe_loop
  probe_loop-Keeps is_final probe h zero = h
  probe_loop-Keeps {A = A} is_final probe h (suc n) = catch-Keeps I probe _ h (λ e.
      if-Keeps I (is_final e) (throw e) (probe_loop is_final probe n) (throw-Keeps I A e)
        (probe_loop-Keeps is_final probe h n))

  lift-Keeps {ℓ} : {A : Type ℓ} (r : Result PublisherError A) → Keeps I (lift r)
  lift-Keeps (ok a) = give-Keeps I a
  lift-Keeps {A = A} (err e) = throw-Keeps I A e

  renewed_ask-Keeps {ℓ} :
      {A : Type ℓ} (job_id token : Uuid) (f : ℕ → Result PublisherError A)
      → Keeps I (renew world job_id token >> (ask f >>= lift))
  renewed_ask-Keeps job_id token f =
      then-Keeps I (renew world job_id token) _ (renew-Keeps world lawful s0 K job_id token)
        (bind-Keeps I (ask f) lift (ask-Keeps f) lift-Keeps)

  pub converged_runtime_capabilities-Keeps :
      (job_id token : Uuid) → Keeps I (converged_runtime_capabilities world job_id token)
  unfolding converged_runtime_capabilities
  converged_runtime_capabilities-Keeps job_id token =
      probe_loop-Keeps capability_is_final _
        (renewed_ask-Keeps job_id token world.runtime_capabilities) (probe_attempts world - 1)

  pub converged_runtime_route_proof-Keeps :
      (job_id token : Uuid) (c : Candidate)
      → Keeps I (converged_runtime_route_proof world job_id token c)
  unfolding converged_runtime_route_proof
  converged_runtime_route_proof-Keeps job_id token c =
      probe_loop-Keeps route_is_final _
        (renewed_ask-Keeps job_id token (λ n. world.runtime_route_proof n c))
        (probe_attempts world - 1)
