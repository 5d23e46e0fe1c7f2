-- ===== src/Publisher/Run/Ending.antt =====
-- The `catch` clause of a run: what it keeps, and when it records FAILED.
use situation_studio.Prelude.{
  ◌≡◌, refl, Bool, true, false, Option, none, some, if◌then◌else◌, String,
}
use situation_studio.Prelude.Results.{ok}
use situation_studio.Store.{
  PublicationJob, PublicationState, FailureCode, ReconciledState, restoration_suppressed,
  needs_recovery,
}
use situation_studio.Publisher.Tables.{Studio, Leadership, Candidate}
use situation_studio.Publisher.Failure.{PublisherError, lease_lost}
use situation_studio.Publisher.Lease.{claimed_job_update, is_verifying, drop_claim}
use situation_studio.Publisher.Attempts.{finish_attempt}
use situation_studio.Publisher.Outcome.{Terminal, terminalize_publication_outcome, update_attempt}
use situation_studio.Publisher.Identity.{Identity, database_identity}
use situation_studio.Publisher.Lifecycle.{Moves, Moves-move, stay, restore, give_up, fail}
use situation_studio.Publisher.Writing.{
  owned_update-Lawful, update_attempt-Lawful, terminalize-Lawful,
  begin_automatic_restoration-Lawful,
}
use situation_studio.Publisher.Action.{
  World, Progress, ◌>>◌, give, write, transaction, try_catch, step_on,
}
use situation_studio.Publisher.Promotion.{renew, commit, commit_to}
use situation_studio.Publisher.Steps.{
  Ending, succeeded, finalization_retry, restored, recovery_required, failed, Claimed,
}
use situation_studio.Publisher.Process.{
  terminalize, terminal_of, retry_finalization, was_finalized, candidate_or_persisted,
  restore_previous, attempted_restore, conclude, end_restored, end_unrestored, end_unverified,
  end_failed, previous_release,
}
use situation_studio.Publisher.Hoare.{
  Triple, Keeps, bind-Triple, then-Triple, bind-Keeps, then-Keeps, catch-Keeps, give-Keeps,
  require_that-Keeps,
}
use situation_studio.Publisher.Run.Quiet.{
  OthersLawful, Knowledge, Knows, query-Keeps, write-Keeps, transaction-Keeps, renew-Keeps,
}
use situation_studio.Publisher.Run.Probes.{converged_runtime_identity-Keeps}
use situation_studio.Publisher.Run.Reports.{
  is_failed, Unfailed, give-Unfailed, connect-Keeps, load_job-Keeps,
}

-- Nothing is said of Leadership.
abbrev pub Anything : Knowledge
Anything l promoted attempted known active = Unit {0}

pub recovering-Moves :
    (s : PublicationState) → needs_recovery s ≡ true → Moves s PublicationState.restored
recovering-Moves PublicationState.recovery_required h = Moves-move restore
recovering-Moves PublicationState.requested h = absurd cc
recovering-Moves PublicationState.assembling h = absurd cc
recovering-Moves PublicationState.promoting h = absurd cc
recovering-Moves PublicationState.verifying h = absurd cc
recovering-Moves PublicationState.needs_refresh h = absurd cc
recovering-Moves PublicationState.succeeded h = absurd cc
recovering-Moves PublicationState.restored h = absurd cc
recovering-Moves PublicationState.failed h = absurd cc

recovering_stays :
    (s : PublicationState) → needs_recovery s ≡ true → Moves s PublicationState.recovery_required
recovering_stays PublicationState.recovery_required h = stay
recovering_stays PublicationState.requested h = absurd cc
recovering_stays PublicationState.assembling h = absurd cc
recovering_stays PublicationState.promoting h = absurd cc
recovering_stays PublicationState.verifying h = absurd cc
recovering_stays PublicationState.needs_refresh h = absurd cc
recovering_stays PublicationState.succeeded h = absurd cc
recovering_stays PublicationState.restored h = absurd cc
recovering_stays PublicationState.failed h = absurd cc

module _ (world : World) (lawful : OthersLawful world) (s0 : Studio)
    (code_text : FailureCode → String) (r : Claimed) where
  abbrev pub Free : Progress → Type 0
  Free = Knows s0 Anything

  abbrev pub Ends : Ending → Progress → Type 0
  Ends = Unfailed world lawful s0 Anything

  terminalized :
      (K : Knowledge) (t : Terminal)
      → ((s : PublicationState) → t.expected_states s ≡ true → Moves s t.state)
      → Keeps (Knows s0 K) (write world (λ now s. terminalize_publication_outcome now t s))
  terminalized K t moves =
      write-Keeps world lawful s0 K (λ now s. terminalize_publication_outcome now t s)
        (λ now s h. terminalize-Lawful s0 now t s (λ j e. moves j.state e) h)

  terminalize-Ends :
      (t : Terminal) (e : Ending)
      → is_failed e ≡ false
      → ((s : PublicationState) → t.expected_states s ≡ true → Moves s t.state)
      → Triple Free (terminalize world code_text r t e) Ends Free
  unfolding terminalize
  terminalize-Ends t e n moves =
      give-Unfailed world lawful s0 Anything _ e n (terminalized Anything t moves)

  pub end_unverified-Ends :
      (x : ReconciledState) → Triple Free (end_unverified world code_text r x) Ends Free
  unfolding end_unverified
  end_unverified-Ends x = terminalize-Ends _ recovery_required refl (λ s e. Moves-move (give_up e))

  -- Where FAILED is recorded, what is known stays known.
  pub end_failed-Keeps :
      (K : Knowledge) (code : FailureCode) (x : ReconciledState)
      → Keeps (Knows s0 K) (end_failed world code_text r code x)
  unfolding end_failed terminalize
  end_failed-Keeps K code x =
      then-Keeps (Knows s0 K) _ _ (terminalized K _ (λ s e. Moves-move (fail e)))
        (give-Keeps (Knows s0 K) failed)

  -- FAILED is the branch's name, with what was known before.
  pub end_failed-Named :
      (K : Knowledge) (code : FailureCode) (x : ReconciledState)
      → Triple
          (Knows s0 K)
          (end_failed world code_text r code x)
          (λ e p. Knows s0 K p × (e ≡ failed))
          (Knows s0 K)
  unfolding end_failed terminalize
  end_failed-Named K code x =
      then-Triple (Knows s0 K) (λ _. Knows s0 K) (λ e p. Knows s0 K p × (e ≡ failed)) (Knows s0 K) _
        _ (terminalized K _ (λ s e. Moves-move (fail e))) (λ _ p h. unfold give in (h, refl))

  conclude-Ends :
      (code : FailureCode) (x : ReconciledState) (i : Option Identity)
      → Triple Free (conclude world code_text r code x i) Ends Free
  unfolding end_restored end_unrestored
  conclude-Ends code x (some i) = terminalize-Ends _ restored refl recovering-Moves
  conclude-Ends code x none = terminalize-Ends _ recovery_required refl recovering_stays

  commit_to-Free :
      (e : Option PublisherError) (lands : Bool) (l : Leadership) → Keeps Free (commit_to e lands l)
  commit_to-Free none lands l p h = h
  commit_to-Free (some e) true l p h = h
  commit_to-Free (some e) false l p h = h

  commit-Free : (l : Leadership) → Keeps Free (commit world l)
  unfolding commit
  commit-Free l p h =
      commit_to-Free (world.fault p.tick) (world.commit_lands p.tick) l (step_on p) h

  candidate-Free :
      (c : Option Candidate) (job : PublicationJob)
      → Keeps Free (candidate_or_persisted world code_text r c job)
  candidate-Free none job =
      query-Keeps world lawful s0 Anything (world.candidate_from_persisted job)
  candidate-Free (some c) job = give-Keeps Free c

  restore_previous-Free :
      (c : Option Candidate) (job : PublicationJob)
      → Keeps Free (restore_previous world code_text r c job)
  unfolding restore_previous
  restore_previous-Free active job = then-Keeps Free _ _ (connect-Keeps world lawful s0 Anything) (
      bind-Keeps Free _ _ (query-Keeps world lawful s0 Anything database_identity) (λ current.
        bind-Keeps Free _ _ (candidate-Free active job) (λ c.
          bind-Keeps Free _ _
            (query-Keeps world lawful s0 Anything (world.restore_release c current.generation))
            (λ l. then-Keeps Free _ _ (commit-Free l) (
              bind-Keeps Free _ _ (query-Keeps world lawful s0 Anything database_identity)
                (λ previous.
                  bind-Keeps Free _ _
                    (converged_runtime_identity-Keeps world lawful s0 Anything
                      (renew world r.job.id r.token) _
                      (renew-Keeps world lawful s0 Anything r.job.id r.token))
                    (λ runtime.
                      then-Keeps Free _ _ (require_that-Keeps Free _ _)
                        (give-Keeps Free previous))))))))

  attempted_restore-Free :
      (c : Option Candidate) (job : PublicationJob)
      → Keeps Free (attempted_restore world code_text r c job)
  unfolding attempted_restore
  attempted_restore-Free c job =
      catch-Keeps Free _ _
        (bind-Keeps Free _ _ (restore_previous-Free c job) (λ i. give-Keeps Free (some i)))
        (λ e. give-Keeps Free none)

  pub restore-Ends :
      (code : FailureCode) (x : ReconciledState) (c : Option Candidate)
      → Triple Free
          (situation_studio.Publisher.Process.restore world code_text r code x c)
          Ends
          Free
  unfolding situation_studio.Publisher.Process.restore
  restore-Ends code x c =
      bind-Triple Free (λ _. Free) Ends Free _ _ (load_job-Keeps world lawful s0 Anything r.job.id)
        (λ job.
          then-Triple Free (λ _. Free) Ends Free _ _
            (write-Keeps world lawful s0 Anything _
              (λ now s h. begin_automatic_restoration-Lawful s0 r.job.id r.token _ s h))
            (λ _.
              bind-Triple Free (λ _. Free) Ends Free _ _ (attempted_restore-Free c job)
                (conclude-Ends code x)))

  finalized_read :
      (c : Option Candidate)
      → Keeps Free (transaction world (λ now s. ok (was_finalized r.job.id c s, s)))
  finalized_read c =
      transaction-Keeps world lawful s0 Anything (λ now s. ok (was_finalized r.job.id c s, s))
        (λ now s h. h)

  suppressed-Ends :
      (code : FailureCode)
      → Triple Free
          (try_catch
              (write world (λ now s. claimed_job_update r.job.id r.token is_verifying drop_claim s))
              (λ _. give tt)
            >> (write world (λ now s.
                  update_attempt r.attempt_id
                    (finish_attempt now
                      (some FailureCode.studio_finalization_retry)
                      (restoration_suppressed code))
                    s)
                >> give finalization_retry))
          Ends
          Free
  suppressed-Ends code =
      then-Triple Free (λ _. Free) Ends Free _ _
        (catch-Keeps Free _ _
          (write-Keeps world lawful s0 Anything
            (λ now s. claimed_job_update r.job.id r.token is_verifying drop_claim s)
            (λ now s h.
              unfold claimed_job_update in
              owned_update-Lawful s0 lease_lost r.job.id r.token is_verifying drop_claim
                ((λ j. refl), (λ j w. stay)) s h))
          (λ e. give-Keeps Free tt))
        (λ _. give-Unfailed world lawful s0 Anything _ finalization_retry refl (
          write-Keeps world lawful s0 Anything _ (λ now s h.
            update_attempt-Lawful s0 r.attempt_id now (some FailureCode.studio_finalization_retry)
              (restoration_suppressed code) s h)))

  pub retry_finalization-Ends :
      (code : FailureCode) (c : Option Candidate)
      → Triple Free (retry_finalization world code_text r code c) Ends Free
  unfolding retry_finalization
  retry_finalization-Ends code c =
      bind-Triple Free (λ _. Free) Ends Free _ _ (finalized_read c) chosen
    where
      chosen :
          (b : Bool)
          → Triple Free
              (if b
                then give succeeded
                else try_catch
                    (write world
                      (λ now s. claimed_job_update r.job.id r.token is_verifying drop_claim s))
                    (λ _. give tt)
                  >> (write world (λ now s.
                        update_attempt r.attempt_id
                          (finish_attempt now
                            (some FailureCode.studio_finalization_retry)
                            (restoration_suppressed code))
                          s)
                      >> give finalization_retry))
              Ends
              Free
      chosen true p h = unfold give in (h, refl)
      chosen false p h = suppressed-Ends code p h
