-- ===== src/Publisher/Action.antt =====
-- What a publisher's run acts on: the Studio tables, Leadership's tables and the local variables of
-- `processPublicationJob` (apps/publisher/src/index.ts), with what the outside does to each step.
use situation_studio.Prelude.{
  ℕ, suc, String, Bool, true, false, Option, none, some, Uuid, Digest, Millis,
}
use situation_studio.Prelude.Results.{Result, ok, err}
use situation_studio.Store.{PublicationJob}
use situation_studio.Publisher.Tables.{Studio, Leadership, Candidate}
use situation_studio.Publisher.Failure.{PublisherError, Matcher}
use situation_studio.Publisher.Identity.{Identity}

pub record Capabilities : Type 0 where
  pub commit : Digest
  pub capability_digest : Digest

pub record RouteProof : Type 0 where
  pub code : String
  pub http_status : ℕ

-- `PublisherRuntimeHealthError`, or another error of the probe.
pub data ProbeError : Type 0 where
  http_status unavailable invalid_response other : ProbeError

-- What the outside answers at the n-th step of a run. `others` is what other processes did to the
-- Studio tables since the step before; `fault` is an error of a statement or a connection, `no_reply`
-- one after a commit has landed, and `commit_lands` whether a COMMIT that failed had landed.
pub record World : Type 0 where
  pub now : ℕ → Millis
  pub fresh_id : ℕ → Uuid
  pub others : ℕ → Studio → Studio
  pub fault : ℕ → Option PublisherError
  pub no_reply : ℕ → Option PublisherError
  pub commit_lands : ℕ → Bool
  pub test : Matcher
  pub is_git_identity : String → Bool
  pub producer_commit : String
  pub attempts : Option ℕ
  pub deadline_ms : Option Millis
  pub candidate_from_persisted : PublicationJob → Leadership → Result PublisherError Candidate
  pub matches_release : Candidate → Leadership → Result PublisherError (Unit {0})
  pub insert_release : Candidate → Leadership → Result PublisherError Leadership
  pub promote_release : Candidate → Leadership → Result PublisherError Leadership
  pub restore_release : Candidate → ℕ → Leadership → Result PublisherError Leadership
  pub runtime_identity : ℕ → Result ProbeError Identity
  pub runtime_capabilities : ℕ → Result PublisherError Capabilities
  pub runtime_route_proof : ℕ → Candidate → Result PublisherError RouteProof

-- The tables, the number of steps taken, and the variables that the `catch` clause reads.
pub record Progress : Type 0 where
  pub studio : Studio
  pub leadership : Leadership
  pub tick : ℕ
  pub promoted : Bool
  pub promotion_attempted : Bool
  pub promotion_state_known : Bool
  pub runtime_verified : Bool
  pub active_candidate : Option Candidate

abbrev pub step_on : Progress → Progress
step_on p = record p { tick = suc p.tick }

abbrev pub Action {ℓ} : Type ℓ → Type ℓ
Action A = Progress → Result PublisherError A × Progress

module _ {ℓ κ} {A : Type ℓ} {B : Type κ} where
  abbrev pub bind_with :
      (A → Action B) → Result PublisherError A × Progress → Result PublisherError B × Progress
  bind_with k (ok a, p) = k a p
  bind_with k (err e, p) = (err e, p)

  infixl 5 ◌>>=◌ ◌>>◌
  unfoldable pub ◌>>=◌ : Action A → (A → Action B) → Action B
  (m >>= k) p = bind_with k (m p)

  unfoldable pub ◌>>◌ : Action A → Action B → Action B
  (m >> k) p = bind_with (λ _. k) (m p)

module _ {ℓ} {A : Type ℓ} where
  unfoldable pub give : A → Action A
  give a p = (ok a, p)

  unfoldable pub throw : PublisherError → Action A
  throw e p = (err e, p)

  abbrev pub catch_with :
      (PublisherError → Action A)
      → Result PublisherError A × Progress
      → Result PublisherError A × Progress
  catch_with k (ok a, p) = (ok a, p)
  catch_with k (err e, p) = k e p

  -- `try { … } catch (e) { … }`: what the body wrote before it threw is kept.
  unfoldable pub try_catch : Action A → (PublisherError → Action A) → Action A
  try_catch m k p = catch_with k (m p)

  abbrev lift : Result PublisherError A → Action A
  lift r p = (r, p)

  abbrev pub commit_with :
      Option PublisherError
      → Progress
      → Result PublisherError (A × Studio)
      → Result PublisherError A × Progress
  commit_with lost p (err e) = (err e, p)
  commit_with none p (ok (a, s)) = (ok a, record p { studio = s })
  commit_with (some e) p (ok (a, s)) = (err e, record p { studio = s })

  abbrev pub transact :
      World
      → ℕ
      → Option PublisherError
      → (Millis → Studio → Result PublisherError (A × Studio))
      → Progress
      → Result PublisherError A × Progress
  transact world n (some e) f p = (err e, p)
  transact world n none f p = commit_with (world.no_reply n) p (f (world.now n) p.studio)

  -- One transaction on the Studio tables, after what others did: all of it lands or nothing does.
  unfoldable pub transaction :
      World → (Millis → Studio → Result PublisherError (A × Studio)) → Action A
  transaction world f p =
      transact world p.tick (world.fault p.tick) f
        (record p { studio = world.others p.tick p.studio; tick = suc p.tick })

  abbrev pub query_with : Option PublisherError → (Leadership → Result PublisherError A) → Action A
  query_with none f p = (f p.leadership, p)
  query_with (some e) f p = (err e, p)

  -- A query of Leadership.
  unfoldable pub query : World → (Leadership → Result PublisherError A) → Action A
  query world f p = query_with (world.fault p.tick) f (step_on p)

abbrev pub valueless : Result PublisherError Studio → Result PublisherError (Unit {0} × Studio)
valueless (ok s) = ok (tt, s)
valueless (err e) = err e

-- A transaction that gives no value.
unfoldable pub write : World → (Millis → Studio → Result PublisherError Studio) → Action (Unit {0})
write world f = transaction world (λ now s. valueless (f now s))

abbrev pub require_that : Bool → PublisherError → Action (Unit {0})
require_that true e = give tt
require_that false e = throw e
