-- ===== src/Publisher/Run/Handling.antt =====
-- A whole run: every publication only moves on in its life, and a run records FAILED only where
-- Leadership does not show the candidate.
use situation_studio.Prelude.{
  ◌≡◌, refl, inl, inr, Bool, true, false, ◌&&◌, ◌||◌, not, Option, none, some, arith, Bool-cases,
  Uuid, String,
}
use situation_studio.Store.{FailureCode, ReconciledState}
use situation_studio.Publisher.Tables.{Studio, Leadership, Candidate}
use situation_studio.Publisher.Failure.{PublisherError, publication_failure_code}
use situation_studio.Publisher.Writing.{Lawful}
use situation_studio.Publisher.Action.{World, Progress, Action, ◌>>=◌, ◌>>◌, give, try_catch}
use situation_studio.Publisher.Steps.{Ending, Claimed, begin, reconcile, set_promoted, set_known}
use situation_studio.Publisher.Course.{course}
use situation_studio.Publisher.Process.{
  variables, settle_with, settle_promotion, end_with, end_failed, settle_and_end, handle,
  process_publication_job,
}
use situation_studio.Publisher.Hoare.{
  After, Triple, Keeps, bind-Triple, then-Triple, catch-Triple, Triple-weaken, if-After,
}
use situation_studio.Publisher.Run.Quiet.{OthersLawful, Knowledge, Knows}
use situation_studio.Publisher.Run.Reports.{is_failed, Unfailed}
use situation_studio.Publisher.Run.Verifying.{begin-Keeps}
use situation_studio.Publisher.Run.Knowing.{is_shown, Untouched, Told, Known}
use situation_studio.Publisher.Run.Promoting.{reconcile-Told}
use situation_studio.Publisher.Run.Course.{Caught, CourseEnds, course-Ends}
use situation_studio.Publisher.Run.Ending.{
  Anything, Free, Ends, end_failed-Keeps, end_unverified-Ends, restore-Ends,
  retry_finalization-Ends,
}

module _ (world : World) (lawful : OthersLawful world) (s0 : Studio) (l0 : Leadership)
    (code_text : FailureCode → String) where
  -- FAILED is recorded only where Leadership does not show the candidate.
  abbrev pub Safe : Ending → Progress → Type 0
  Safe e p =
      Lawful s0 p.studio
      × (is_failed e ≡ true
          → (c : Candidate) → p.active_candidate ≡ some c
          → is_shown world.test c l0 ≡ false
          → is_shown world.test c p.leadership ≡ false)

  abbrev Lawfully : Progress → Type 0
  Lawfully p = Lawful s0 p.studio

  Unfailed-Safe :
      (K : Knowledge) (e : Ending) (p : Progress) → Unfailed world lawful s0 K e p → Safe e p
  Unfailed-Safe K e p (h, n) = (h.0, λ f c a g. absurd cc)

  module _ (r : Claimed) where
    abbrev C : Progress → Type 0
    C = Caught world lawful s0 l0 r

    -- The candidate of the run, with what is known.
    abbrev With : Candidate → Knowledge
    With c l promoted attempted known active =
        (active ≡ some c) × Known world.test l0 l promoted attempted known active

    abbrev Answered : Candidate → Knowledge
    Answered c l promoted attempted known active =
        (active ≡ some c) × (is_shown world.test c l ≡ true → promoted ≡ true)

    told_promoted :
        (c : Candidate) (b : Bool) (E : Progress → Type 0)
        → Triple (Knows s0 (Told world.test l0 c b)) (set_promoted b) (λ _. Knows s0 (Answered c)) E
    unfolding set_promoted
    told_promoted c b E p (g, (a, k)) = (g, (a, k))

    answered_known :
        (c : Candidate) (E : Progress → Type 0)
        → Triple (Knows s0 (Answered c)) (set_known true) (λ _. C) E
    unfolding set_known
    answered_known c E p (g, (a, k)) = (g, λ d e f h. let same : c ≡ d = cc in known d same h)
      where
        known :
            (d : Candidate)
            → c ≡ d
            → is_shown world.test d p.leadership ≡ true
            → (p.promoted || (p.promotion_attempted && false)) ≡ true
        known d same h = let t = rw same at k h in ground arith

    doubted : (c : Candidate) → Triple (Knows s0 (With c)) (set_known false) (λ _. C) C
    unfolding set_known
    doubted c p (g, (a, k)) = (g, λ d e f h. let t = k d e f h in ground arith)

    settle_with-Caught :
        (b : Bool) (c : Option Candidate) (p : Progress)
        → p.active_candidate ≡ c
        → C p
        → After (λ _. C) C (settle_with world code_text r b c p)
    settle_with-Caught true (some c) p e h =
        catch-Triple (Knows s0 (With c)) (λ _. C) (Knows s0 (With c)) C _ _ told (λ _. doubted c) p
          (h.0, (e, h.1))
      where
        told :
            Triple
              (Knows s0 (With c))
              (reconcile world c >>= λ b. set_promoted b >> set_known true)
              (λ _. C)
              (Knows s0 (With c))
        told =
            bind-Triple (Knows s0 (With c)) (λ b. Knows s0 (Told world.test l0 c b)) (λ _. C)
              (Knows s0 (With c)) _ _ (reconcile-Told world lawful s0 l0 c (With c) (λ p h. h.1.0))
              (λ b.
                then-Triple (Knows s0 (Told world.test l0 c b)) (λ _. Knows s0 (Answered c))
                  (λ _. C) (Knows s0 (With c)) _ _ (told_promoted c b (Knows s0 (With c)))
                  (λ _. answered_known c (Knows s0 (With c))))
    settle_with-Caught true none p e h = unfold give in h
    settle_with-Caught false (some c) p e h = unfold give in h
    settle_with-Caught false none p e h = unfold give in h

    settle_promotion-Caught : Keeps C (settle_promotion world code_text r)
    unfolding settle_promotion ◌>>=◌ variables
    settle_promotion-Caught p h =
        settle_with-Caught (p.promotion_attempted && not p.promotion_state_known) p.active_candidate
          p refl h

    Free-Safe :
        (m : Action Ending)
        → Triple
            (Free world lawful s0 code_text r)
            m
            (Ends world lawful s0 code_text r)
            (Free world lawful s0 code_text r)
        → Triple C m Safe Lawfully
    Free-Safe m h =
        Triple-weaken (Free world lawful s0 code_text r) C (Ends world lawful s0 code_text r) Safe
          (Free world lawful s0 code_text r) Lawfully m (λ p g. (g.0, tt)) (Unfailed-Safe Anything)
          (λ p g. g.0) h

    -- FAILED is recorded under a settled promotion that did not happen.
    abbrev Unpublished : Knowledge
    Unpublished l promoted attempted known active =
        Known world.test l0 l promoted attempted known active
        × ((promoted || (attempted && not known)) ≡ false)

    failed-Safe :
        (code : FailureCode) (x : ReconciledState)
        → Triple (Knows s0 Unpublished) (end_failed world code_text r code x) Safe Lawfully
    failed-Safe code x =
        Triple-weaken (Knows s0 Unpublished) (Knows s0 Unpublished) (λ _. Knows s0 Unpublished) Safe
          (Knows s0 Unpublished) Lawfully (end_failed world code_text r code x) (λ p h. h)
          (λ e p h. (h.0, λ f c a g. unshown c p a g h)) (λ p h. h.0)
          (end_failed-Keeps world lawful s0 code_text r Unpublished code x)
      where
        unshown :
            (c : Candidate) (p : Progress)
            → p.active_candidate ≡ some c
            → is_shown world.test c l0 ≡ false
            → Knows s0 Unpublished p
            → is_shown world.test c p.leadership ≡ false
        unshown c p a g h = elim (Bool-cases (is_shown world.test c p.leadership)) [
          | inl e ↦ absurd (let t = h.1.0 c a g e in let n = h.1.1 in cc)
          | inr e ↦ e
        ]

    end_with-Safe :
        (code : FailureCode) (p : Progress)
        → C p
        → After Safe Lawfully (end_with world code_text r code p p)
    end_with-Safe code p h =
        if-After Safe Lawfully p.promoted _ _ p
          (λ e.
            Free-Safe _ (restore-Ends world lawful s0 code_text r code _ p.active_candidate) p h)
          (λ e.
            if-After Safe Lawfully (p.promotion_attempted && not p.promotion_state_known) _ _ p
              (λ d. Free-Safe _ (end_unverified-Ends world lawful s0 code_text r _) p h)
              (λ d. failed-Safe code _ p (h.0, (h.1, ground arith))))

    settle_and_end-Safe :
        (code : FailureCode) → Triple C (settle_and_end world code_text r code) Safe Lawfully
    unfolding settle_and_end
    settle_and_end-Safe code =
        then-Triple C (λ _. C) Safe Lawfully _ _
          (Triple-weaken C C (λ _. C) (λ _. C) C Lawfully (settle_promotion world code_text r)
            (λ p h. h) (λ a p h. h) (λ p h. h.0) settle_promotion-Caught)
          (λ _ p h. unfold ◌>>=◌ in unfold variables in end_with-Safe code p h)

    handle-Safe : (e : PublisherError) → Triple C (handle world code_text r e) Safe Lawfully
    unfolding handle ◌>>=◌ variables
    handle-Safe e p h =
        if-After Safe Lawfully p.runtime_verified _ _ p
          (λ v.
            Free-Safe _
              (retry_finalization-Ends world lawful s0 code_text r
                (publication_failure_code world.test e) p.active_candidate)
              p h)
          (λ v. settle_and_end-Safe (publication_failure_code world.test e) p h)

    run-Safe :
        Triple
          (Knows s0 (Untouched world.test l0))
          (try_catch (course world r) (handle world code_text r))
          Safe
          Lawfully
    run-Safe =
        catch-Triple (Knows s0 (Untouched world.test l0)) Safe C Lawfully (course world r)
          (handle world code_text r)
          (Triple-weaken (Knows s0 (Untouched world.test l0)) (Knows s0 (Untouched world.test l0))
            (CourseEnds world lawful s0 l0 r) Safe C C (course world r) (λ p h. h)
            (λ e p h. (h.0.0, λ f c a g. let n = h.1 in absurd cc)) (λ p h. h)
            (course-Ends world lawful s0 l0 r))
          handle-Safe

  pub process-Safe :
      (job_id token : Uuid)
      → Triple
          (Knows s0 (Untouched world.test l0))
          (process_publication_job world code_text job_id token)
          Safe
          Lawfully
  unfolding process_publication_job
  process-Safe job_id token =
      bind-Triple (Knows s0 (Untouched world.test l0)) (λ _. Knows s0 (Untouched world.test l0))
        Safe Lawfully _ _
        (Triple-weaken (Knows s0 (Untouched world.test l0)) (Knows s0 (Untouched world.test l0))
          (λ _. Knows s0 (Untouched world.test l0)) (λ _. Knows s0 (Untouched world.test l0))
          (Knows s0 (Untouched world.test l0)) Lawfully (begin world job_id token) (λ p h. h)
          (λ a p h. h) (λ p h. h.0)
          (begin-Keeps world lawful s0 (Untouched world.test l0) job_id token))
        run-Safe
