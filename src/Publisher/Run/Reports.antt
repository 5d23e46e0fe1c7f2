-- ===== src/Publisher/Run/Reports.antt =====
-- The steps of a run between its reads of Leadership keep what is known.
use situation_studio.Prelude.{
  ◌≡◌, refl, Bool, true, false, Option, none, some, List, Uuid, ◌==◌, is_some,
}
use situation_studio.Prelude.Rows.{find_first}
use situation_studio.Prelude.Results.{ok, Always}
use situation_studio.Store.{PublicationJob, PublicationState, EventKind, Scalar, ReconciledState}
use situation_studio.Publisher.Tables.{Studio, Candidate, publications}
use situation_studio.Publisher.Failure.{lease_lost}
use situation_studio.Publisher.Lease.{
  is_working, is_verifying, is_assembling_or_promoting, extend_lease, claimed_job_update,
  claimed_event, owned_update,
}
use situation_studio.Publisher.Identity.{Identity}
use situation_studio.Publisher.Action.{World, Progress, Action, ◌>>◌, give, require_that}
use situation_studio.Publisher.Lifecycle.{Moves, Moves-move, stay, verify, outdate, promote}
use situation_studio.Publisher.Writing.{
  Lawful, owned_update-Lawful, claimed_event-Lawful, claimed_transition_with_event-Lawful,
  update_attempt-Lawful,
}
use situation_studio.Publisher.Promotion.{renew}
use situation_studio.Publisher.Steps.{
  Ending, needs_refresh, failed, Claimed, connect, load_job, found_job, persist_snapshot, report,
  announce, need_refresh, refresh, promote_state, mark_promoting,
}
use situation_studio.Publisher.Course.{mark_verifying, record_promotion}
use situation_studio.Publisher.Hoare.{
  Triple, Keeps, then-Keeps, then-Triple, give-Keeps, if-Keeps, require_that-Keeps,
}
use situation_studio.Publisher.Run.Quiet.{
  OthersLawful, Knowledge, Knows, transaction-Keeps, write-Keeps, query-Keeps, renew-Keeps,
}

abbrev pub is_failed : Ending → Bool
is_failed failed = true
is_failed _ = false

promoting-Moves :
    (s : PublicationState)
    → is_assembling_or_promoting s ≡ true
    → Moves s PublicationState.promoting
promoting-Moves PublicationState.assembling h = Moves-move promote
promoting-Moves PublicationState.promoting h = stay
promoting-Moves PublicationState.requested h = absurd cc
promoting-Moves PublicationState.verifying h = absurd cc
promoting-Moves PublicationState.needs_refresh h = absurd cc
promoting-Moves PublicationState.succeeded h = absurd cc
promoting-Moves PublicationState.restored h = absurd cc
promoting-Moves PublicationState.recovery_required h = absurd cc
promoting-Moves PublicationState.failed h = absurd cc

module _ (world : World) (lawful : OthersLawful world) (s0 : Studio) (K : Knowledge) where
  abbrev pub I : Progress → Type 0
  I = Knows s0 K

  -- A branch that does not record FAILED.
  abbrev pub Unfailed : Ending → Progress → Type 0
  Unfailed e p = Knows s0 K p × (is_failed e ≡ false)

  pub give-Unfailed {ℓ} :
      {A : Type ℓ} (m : Action A) (e : Ending)
      → is_failed e ≡ false
      → Keeps I m
      → Triple I (m >> give e) Unfailed I
  give-Unfailed m e n h =
      then-Triple I (λ _. I) Unfailed I m (give e) h (λ _ p i. unfold give in (i, n))

  pub connect-Keeps : Keeps I (connect world)
  unfolding connect
  connect-Keeps = query-Keeps world lawful s0 K (λ l. ok tt)

  pub load_job-Keeps : (job_id : Uuid) → Keeps I (load_job world job_id)
  unfolding load_job
  load_job-Keeps job_id =
      transaction-Keeps world lawful s0 K
        (λ now s. found_job s (find_first (λ j. j.id == job_id) (publications s)))
        (λ now s h. each s h (find_first (λ j. j.id == job_id) (publications s)))
    where
      each :
          (s : Studio)
          → Lawful s0 s
          → (j : Option PublicationJob) → Always (λ q. Lawful s0 q.1) (found_job s j)
      each s h none = tt
      each s h (some j) = h

  module _ (r : Claimed) where
    pub report-Keeps :
        (kind : EventKind) (payload : List Scalar) → Keeps I (report world r kind payload)
    unfolding report
    report-Keeps kind payload =
        write-Keeps world lawful s0 K (λ now s. claimed_event now r.job.id r.token kind payload s)
          (λ now s h. claimed_event-Lawful s0 r.job.id r.token kind payload s h now)

    pub persist_snapshot-Keeps : (c : Candidate) → Keeps I (persist_snapshot world r c)
    unfolding persist_snapshot
    persist_snapshot-Keeps c =
        if-Keeps I (is_some r.job.preflight_receipt_id) _ (give tt)
          (then-Keeps I (require_that c.sealed _) _ (require_that-Keeps I c.sealed _) (
            write-Keeps world lawful s0 K
              (λ now s. owned_update lease_lost r.job.id r.token is_working (extend_lease now) s)
              (λ now s h.
                owned_update-Lawful s0 lease_lost r.job.id r.token is_working (extend_lease now)
                  ((λ j. refl), (λ j w. stay)) s h)))
          (give-Keeps I tt)

    pub announce-Keeps : (c : Candidate) → Keeps I (announce world r c)
    unfolding announce
    announce-Keeps c =
        then-Keeps I (report world r EventKind.snapshot_built _)
          (report world r EventKind.validated _) (report-Keeps EventKind.snapshot_built _)
          (report-Keeps EventKind.validated _)

    pub mark_promoting-Keeps : (c : Candidate) → Keeps I (mark_promoting world r c)
    unfolding mark_promoting
    mark_promoting-Keeps c = if-Keeps I (is_verifying r.job.state) (give tt) _ (give-Keeps I tt) (
        write-Keeps world lawful s0 K
          (λ now s.
            claimed_job_update r.job.id r.token is_assembling_or_promoting (promote_state c) s)
          (λ now s h.
            unfold claimed_job_update in
            owned_update-Lawful s0 lease_lost r.job.id r.token is_assembling_or_promoting
              (promote_state c) ((λ j. refl), (λ j w. promoting-Moves j.state w)) s h))

    pub refresh-Unfailed :
        (c : Candidate) (i : Identity) → Triple I (refresh world r c i) Unfailed I
    unfolding refresh
    refresh-Unfailed c i =
        then-Triple I (λ _. I) Unfailed I _ _
          (write-Keeps world lawful s0 K _ (λ now s h.
            claimed_transition_with_event-Lawful s0 r.job.id r.token EventKind.conflicted _ s h
              (need_refresh now i.release_id) ((λ j. refl), (λ j w. Moves-move (outdate w)))))
          (λ _. give-Unfailed _ needs_refresh refl (
            write-Keeps world lawful s0 K _ (λ now s h.
              update_attempt-Lawful s0 r.attempt_id now none ReconciledState.needs_refresh s h)))

    pub record_promotion-Keeps : (i : Identity) → Keeps I (record_promotion world r i)
    unfolding record_promotion
    record_promotion-Keeps i =
        then-Keeps I (renew world r.job.id r.token) _
          (renew-Keeps world lawful s0 K r.job.id r.token)
          (then-Keeps I _ (report world r EventKind.pointer_advanced _)
            (write-Keeps world lawful s0 K
              (λ now s. claimed_job_update r.job.id r.token is_working (mark_verifying now) s)
              (λ now s h.
                unfold claimed_job_update in
                owned_update-Lawful s0 lease_lost r.job.id r.token is_working (mark_verifying now)
                  ((λ j. refl), (λ j w. Moves-move (verify w))) s h))
            (report-Keeps EventKind.pointer_advanced _))
