-- ===== src/Publisher/Writing.antt =====
-- What the publisher's transactions keep: every publication moves on in its life or stays where it
-- is, events and attempts stay numbered.
use situation_studio.Prelude.{
  ◌≡◌, refl, arith, inl, inr, Bool, true, Option, List, Uuid, Millis, Bool-cases, ◌==◌,
}
use situation_studio.Prelude.Rows.{update_many, count}
use situation_studio.Prelude.Results.{ok, Always, Always-bind}
use situation_studio.Store.{
  PublicationJob, PublicationState, FailureCode, EventKind, Scalar, ReconciledState,
}
use situation_studio.Publisher.Tables.{Studio, publications, with_publications}
use situation_studio.Publisher.Failure.{PublisherError, lease_lost}
use situation_studio.Publisher.Events.{append_publication_event}
use situation_studio.Publisher.Events.Appending.{EventsNumbered, append-EventsNumbered, append_only}
use situation_studio.Publisher.Attempts.{finish_attempt}
use situation_studio.Publisher.Attempts.Counting.{AttemptsInv, finish-AttemptsInv}
use situation_studio.Publisher.Lease.{
  owned_update, is_owned, claimed_event, claimed_transition_with_event, is_working, extend_lease,
}
use situation_studio.Publisher.Outcome.{
  update_attempt, terminalize_publication_outcome, Terminal, record_terminal, authority_lost_at_end,
  restoration_refused, begin_automatic_restoration, begin_recovery, is_promoting_or_verifying,
}
use situation_studio.Publisher.Lifecycle.{
  Moves, stay, Moves-move, give_up, Follows, Follows-trans, Follows-update_many,
}

-- The tables, some time after `s0`.
pub record Lawful (s0 s : Studio) : Type 0 where
  pub follows : Follows (publications s0) (publications s)
  pub numbered : EventsNumbered s
  pub attempts : AttemptsInv s.attempts

-- Rows of these states, written so, move on.
abbrev pub Advances : (PublicationState → Bool) → (PublicationJob → PublicationJob) → Type 0
Advances states write =
    ((j : PublicationJob) → (write j).id ≡ j.id)
    × ((j : PublicationJob) → states j.state ≡ true → Moves j.state (write j).state)

module _ (s0 : Studio) where
  pub write-Lawful :
      (p : PublicationJob → Bool) (write : PublicationJob → PublicationJob) (s : Studio)
      → ((j : PublicationJob) → (write j).id ≡ j.id)
      → ((j : PublicationJob) → p j ≡ true → Moves j.state (write j).state)
      → Lawful s0 s
      → Lawful s0 (with_publications (update_many p write (publications s)) s)
  write-Lawful p write s ids moves h = record {
    follows = Follows-trans h.follows (Follows-update_many p write ids moves (publications s));
    numbered = h.numbered;
    attempts = h.attempts;
  }

  pub append-Lawful :
      (job_id : Uuid) (kind : EventKind) (payload : List Scalar) (s : Studio)
      → Lawful s0 s
      → Lawful s0 (append_publication_event job_id kind payload s)
  append-Lawful job_id kind payload s h =
      let (same_db, same_attempts) = append_only job_id kind payload s in
      record {
        follows = rw same_db h.follows;
        numbered = append-EventsNumbered job_id kind payload s h.numbered;
        attempts = rw same_attempts h.attempts;
      }

  -- A change of the other tables.
  pub same-Lawful :
      (s s' : Studio)
      → publications s' ≡ publications s
      → s'.events ≡ s.events
      → s'.attempts ≡ s.attempts
      → Lawful s0 s
      → Lawful s0 s'
  same-Lawful s s' p e a h = record {
    follows = rw p h.follows;
    numbered = λ job_id. rw e (h.numbered job_id);
    attempts = λ job_id. rw a (h.attempts job_id);
  }

  pub owned_update-Lawful :
      (lost : PublisherError) (job_id token : Uuid) (states : PublicationState → Bool)
      (write : PublicationJob → PublicationJob)
      → Advances states write
      → (s : Studio) → Lawful s0 s
      → Always (Lawful s0) (owned_update lost job_id token states write s)
  unfolding owned_update
  owned_update-Lawful lost job_id token states write (ids, moves) s h =
      elim (Bool-cases (count (is_owned job_id token states) (publications s) == 1)) [
        | inl e ↦ rw e (
            write-Lawful (is_owned job_id token states) write s ids (λ j o. moves j (ground arith))
              h)
        | inr e ↦ rw e tt
      ]

  pub update_attempt-Lawful :
      (id : Uuid) (now : Millis) (code : Option FailureCode) (state : ReconciledState) (s : Studio)
      → Lawful s0 s
      → Always (Lawful s0) (update_attempt id (finish_attempt now code state) s)
  unfolding update_attempt
  update_attempt-Lawful id now code state s h =
      elim (Bool-cases (count (λ a. a.id == id) s.attempts == 0)) [
        | inl e ↦ rw e tt
        | inr e ↦ rw e (record {
          follows = h.follows;
          numbered = h.numbered;
          attempts = finish-AttemptsInv (λ a. a.id == id) now code state s.attempts h.attempts;
        })
      ]

  -- A write that its holder reports.
  module _ (job_id token : Uuid) (kind : EventKind) (payload : List Scalar) (s : Studio)
      (h : Lawful s0 s) where
    pub claimed_transition_with_event-Lawful :
        (write : PublicationJob → PublicationJob)
        → Advances is_working write
        → Always (Lawful s0) (claimed_transition_with_event job_id token write kind payload s)
    unfolding claimed_transition_with_event
    claimed_transition_with_event-Lawful write a =
        Always-bind (Lawful s0) (Lawful s0)
          (owned_update lease_lost job_id token is_working write s)
          (λ owned. ok (append_publication_event job_id kind payload owned))
          (owned_update-Lawful lease_lost job_id token is_working write a s h)
          (λ owned g. append-Lawful job_id kind payload owned g)

    pub claimed_event-Lawful :
        (now : Millis) → Always (Lawful s0) (claimed_event now job_id token kind payload s)
    unfolding claimed_event
    claimed_event-Lawful now =
        Always-bind (Lawful s0) (Lawful s0)
          (owned_update lease_lost job_id token is_working (extend_lease now) s)
          (λ owned. ok (append_publication_event job_id kind payload owned))
          (owned_update-Lawful lease_lost job_id token is_working (extend_lease now)
            ((λ j. refl), (λ j w. stay)) s h)
          (λ owned g. append-Lawful job_id kind payload owned g)

  pub terminalize-Lawful :
      (now : Millis) (t : Terminal) (s : Studio)
      → ((j : PublicationJob) → t.expected_states j.state ≡ true → Moves j.state t.state)
      → Lawful s0 s
      → Always (Lawful s0) (terminalize_publication_outcome now t s)
  unfolding terminalize_publication_outcome
  terminalize-Lawful now t s moves h =
      Always-bind (Lawful s0) (Lawful s0)
        (owned_update authority_lost_at_end t.job_id t.claim_token t.expected_states
          (record_terminal now t) s)
        (λ owned.
          update_attempt t.attempt_id (finish_attempt now t.attempt_failure_code t.reconciled_state)
            (append_publication_event t.job_id t.event_kind t.event_payload owned))
        (owned_update-Lawful authority_lost_at_end t.job_id t.claim_token t.expected_states
          (record_terminal now t) ((λ j. refl), moves) s h)
        (λ owned g.
          update_attempt-Lawful t.attempt_id now t.attempt_failure_code t.reconciled_state
            (append_publication_event t.job_id t.event_kind t.event_payload owned)
            (append-Lawful t.job_id t.event_kind t.event_payload owned g))

  promoting_active :
      (s : PublicationState)
      → is_promoting_or_verifying s ≡ true
      → Moves s PublicationState.recovery_required
  promoting_active PublicationState.promoting h = Moves-move (give_up refl)
  promoting_active PublicationState.verifying h = Moves-move (give_up refl)
  promoting_active PublicationState.requested h = absurd cc
  promoting_active PublicationState.assembling h = absurd cc
  promoting_active PublicationState.needs_refresh h = absurd cc
  promoting_active PublicationState.succeeded h = absurd cc
  promoting_active PublicationState.restored h = absurd cc
  promoting_active PublicationState.recovery_required h = absurd cc
  promoting_active PublicationState.failed h = absurd cc

  pub begin_automatic_restoration-Lawful :
      (job_id token : Uuid) (payload : List Scalar) (s : Studio)
      → Lawful s0 s
      → Always (Lawful s0) (begin_automatic_restoration job_id token payload s)
  unfolding begin_automatic_restoration
  begin_automatic_restoration-Lawful job_id token payload s h =
      Always-bind (Lawful s0) (Lawful s0)
        (owned_update restoration_refused job_id token is_promoting_or_verifying begin_recovery s)
        (λ owned. ok (append_publication_event job_id EventKind.restore_started payload owned))
        (owned_update-Lawful restoration_refused job_id token is_promoting_or_verifying
          begin_recovery ((λ j. refl), (λ j w. promoting_active j.state w)) s h)
        (λ owned g. append-Lawful job_id EventKind.restore_started payload owned g)
