-- ===== src/Publisher/Run/Course.antt =====
-- The `try` block of a run, from its start.
use situation_studio.Prelude.{◌≡◌, inl, inr, true, false, Bool-cases, holds}
use situation_studio.Publisher.Tables.{Studio, Leadership, Candidate}
use situation_studio.Publisher.Action.{World, Progress, Action, ◌>>◌}
use situation_studio.Publisher.Outcome.{is_promoting_or_verifying}
use situation_studio.Publisher.Steps.{Ending, Claimed, set_candidate, reconcile, resume_promotion}
use situation_studio.Publisher.Course.{publish, course}
use situation_studio.Publisher.Hoare.{
  Triple, Keeps, bind-Triple, then-Triple, Triple-weaken, require_that-Keeps, give-Keeps,
}
use situation_studio.Publisher.Run.Quiet.{
  OthersLawful, Knowledge, Knows, query-Keeps, renew-Keeps, assert_fence-Keeps,
}
use situation_studio.Publisher.Run.Probes.{converged_runtime_capabilities-Keeps}
use situation_studio.Publisher.Run.Reports.{
  is_failed, connect-Keeps, persist_snapshot-Keeps, announce-Keeps,
}
use situation_studio.Publisher.Run.Knowing.{
  Untouched, Tracked, Told, UnderWay, Known, Tracked-Known, Untouched-Known, UnderWay-Tracked,
  set_candidate-Triple, set_attempted-Triple, set_promoted-Triple, set_known-Triple,
}
use situation_studio.Publisher.Run.Safety.{
  Track, Ends, Reads, read-Reads, observed-Reads, advance-Ends,
}
use situation_studio.Publisher.Run.Promoting.{reconcile-Told}

module _ (world : World) (lawful : OthersLawful world) (s0 : Studio) (l0 : Leadership)
    (r : Claimed) where
  module _ (c : Candidate) where
    abbrev T : Progress → Type 0
    T = Track world lawful s0 l0 r c

    abbrev F : Ending → Progress → Type 0
    F = Ends world lawful s0 l0 r c

    abbrev K : Knowledge
    K = Tracked world.test l0 c

    Busy-Told :
        Triple
          (Knows s0 (UnderWay world.test l0 c))
          (reconcile world c)
          (λ b. Knows s0 (Told world.test l0 c b))
          T
    Busy-Told =
        Triple-weaken (Knows s0 (UnderWay world.test l0 c)) (Knows s0 (UnderWay world.test l0 c))
          (λ b. Knows s0 (Told world.test l0 c b)) (λ b. Knows s0 (Told world.test l0 c b))
          (Knows s0 (UnderWay world.test l0 c)) T (reconcile world c) (λ p h. h) (λ b p h. h)
          (UnderWay-Tracked world.test l0 s0 c)
          (reconcile-Told world lawful s0 l0 c (UnderWay world.test l0 c) (λ p h. h.1.0))

    resume_promotion-Track : Keeps T (resume_promotion world r c)
    unfolding resume_promotion
    resume_promotion-Track = elim (Bool-cases (is_promoting_or_verifying r.job.state)) [
      | inr e ↦ rw e (give-Keeps T tt)
      | inl e ↦ rw e (
          then-Triple T (λ _. Knows s0 (UnderWay world.test l0 c)) (λ _. T) T _ _
            (set_attempted-Triple world.test l0 s0 c)
            (λ _.
              bind-Triple (Knows s0 (UnderWay world.test l0 c))
                (λ b. Knows s0 (Told world.test l0 c b)) (λ _. T) T _ _ Busy-Told
                (λ b.
                  then-Triple (Knows s0 (Told world.test l0 c b))
                    (λ _. Knows s0 (Told world.test l0 c b)) (λ _. T) T _ _
                    (set_known-Triple world.test l0 s0 c b true)
                    (λ _. set_promoted-Triple world.test l0 s0 c b))))
    ]

    abbrev Passes {ℓ} : {A : Type ℓ} (m : Action A) (k : Action Ending) → Type 0
    Passes m k = Keeps T m → Triple T k F T → Triple T (m >> k) F T

    quietly {ℓ} : {A : Type ℓ} (m : Action A) (k : Action Ending) → Passes m k
    quietly m k h g = then-Triple T (λ _. T) F T m k h (λ _. g)

    publish-Ends : Triple T (publish world r c) F T
    unfolding publish
    publish-Ends = quietly _ _ (persist_snapshot-Keeps world lawful s0 K r c) (
        quietly _ _ resume_promotion-Track (
          quietly _ _ (announce-Keeps world lawful s0 K r c) (
            quietly _ _ (converged_runtime_capabilities-Keeps world lawful s0 K r.job.id r.token) (
              quietly _ _ (renew-Keeps world lawful s0 K r.job.id r.token) (
                quietly _ _ (assert_fence-Keeps world lawful s0 K r.job r.token) (
                  quietly _ _ (connect-Keeps world lawful s0 K) (
                    bind-Triple T (λ i. Knows s0 (Reads world lawful s0 l0 r c i)) F T _ _
                      (read-Reads world lawful s0 l0 r c)
                      (λ i.
                        then-Triple (Knows s0 (Reads world lawful s0 l0 r c i))
                          (λ _. Knows s0 (Reads world lawful s0 l0 r c i)) F T _ _
                          (observed-Reads world lawful s0 l0 r c i)
                          (λ _. advance-Ends world lawful s0 l0 r c i)))))))))

  abbrev U : Progress → Type 0
  U = Knows s0 (Untouched world.test l0)

  abbrev pub Caught : Progress → Type 0
  Caught = Knows s0 (Known world.test l0)

  abbrev pub CourseEnds : Ending → Progress → Type 0
  CourseEnds e p = Caught p × (is_failed e ≡ false)

  quiet_Caught {ℓ} : {A : Type ℓ} (m : Action A) → Keeps U m → Triple U m (λ _. U) Caught
  quiet_Caught m h =
      Triple-weaken U U (λ _. U) (λ _. U) U Caught m (λ p g. g) (λ a p g. g)
        (Untouched-Known world.test l0 s0) h

  candidate_course :
      (c : Candidate) → Triple U (set_candidate c >> publish world r c) CourseEnds Caught
  candidate_course c =
      then-Triple U (λ _. T c) CourseEnds Caught _ _ (set_candidate-Triple world.test l0 s0 c)
        (λ _.
          Triple-weaken (T c) (T c) (F c) CourseEnds (T c) Caught (publish world r c) (λ p h. h)
            (λ e p h. (Tracked-Known world.test l0 s0 c p h.0, h.1))
            (Tracked-Known world.test l0 s0 c) (publish-Ends c))

  pub course-Ends : Triple U (course world r) CourseEnds Caught
  unfolding course
  course-Ends =
      then-Triple U (λ _. U) CourseEnds Caught _ _
        (quiet_Caught _ (require_that-Keeps U (holds r.job.claim_token r.token) _))
        (λ _.
          then-Triple U (λ _. U) CourseEnds Caught _ _
            (quiet_Caught _ (require_that-Keeps U (world.is_git_identity world.producer_commit) _))
            (λ _.
              bind-Triple U (λ _. U) CourseEnds Caught _ _
                (quiet_Caught _ (
                  query-Keeps world lawful s0 (Untouched world.test l0)
                    (world.candidate_from_persisted r.job)))
                candidate_course))
