-- ===== src/Publisher/Finalize/Finishing.antt =====
-- What the transaction of a verified publication keeps.
use situation_studio.Prelude.{
  ◌≡◌, refl, arith, inl, inr, true, ◌&&◌, Option, none, some, Millis, Bool-cases, ◌==◌, holds,
}
use situation_studio.Prelude.Rows.{count}
use situation_studio.Prelude.Results.{Always, Always-bind, ◌>>=◌}
use situation_studio.Store.{
  PublicationState, EventKind, ReconciledState, ReleaseObservation, ProductionVersion,
  VerificationReceipt,
}
use situation_studio.Publisher.Tables.{Studio, publications}
use situation_studio.Publisher.Attempts.{finish_attempt}
use situation_studio.Publisher.Outcome.{update_attempt}
use situation_studio.Publisher.Lease.{is_verifying}
use situation_studio.Publisher.Lifecycle.{Moves, Moves-move, Move}
use situation_studio.Publisher.Writing.{
  Lawful, append-Lawful, same-Lawful, write-Lawful, update_attempt-Lawful,
}
use situation_studio.Publisher.Finalize.{
  Verified, is_held, observe, observe_with, add_version, version_with, set_production,
  is_fenced_situation, add_receipt, receipt_with, release_checkout, is_held_checkout, archive_draft,
  record_events, record_success, complete_job, is_fenced_job, succeed, finalize_success,
}

module _ (s0 : Studio) (v : Verified) where
  observe_with-Lawful :
      (s : Studio) (o : Option ReleaseObservation)
      → Lawful s0 s
      → Always (λ r. Lawful s0 r.1) (observe_with v s o)
  observe_with-Lawful s none h = same-Lawful s0 s _ refl refl refl h
  observe_with-Lawful s (some o) h =
      elim (Bool-cases (
        o.manifest_hash == v.candidate.manifest_hash
        && holds o.pointer_generation v.identity.generation)) [ inl e ↦ rw e h | inr e ↦ rw e tt ]

  version_with-Lawful :
      (now : Millis) (o : ReleaseObservation) (s : Studio) (x : Option ProductionVersion)
      → Lawful s0 s
      → Always (λ r. Lawful s0 r.1) (version_with now v o s x)
  version_with-Lawful now o s none h = same-Lawful s0 s _ refl refl refl h
  version_with-Lawful now o s (some x) h =
      elim (Bool-cases (x.bundle_hash == v.candidate.bundle_hash)) [
        | inl e ↦ rw e h
        | inr e ↦ rw e tt
      ]

  set_production-Lawful :
      (x : ProductionVersion) (s : Studio) → Lawful s0 s → Always (Lawful s0) (set_production v x s)
  unfolding set_production
  set_production-Lawful x s h =
      elim (Bool-cases (count (is_fenced_situation v) s.db.situations == 1)) [
        | inl e ↦ rw e (same-Lawful s0 s _ refl refl refl h)
        | inr e ↦ rw e tt
      ]

  receipt_with-Lawful :
      (s : Studio) (r : Option VerificationReceipt)
      → Lawful s0 s
      → Always (Lawful s0) (receipt_with v s r)
  receipt_with-Lawful s none h = same-Lawful s0 s _ refl refl refl h
  receipt_with-Lawful s (some r) h =
      elim (Bool-cases (
        r.expected_release_id == v.candidate.release_id
        && r.expected_manifest_hash == v.candidate.manifest_hash)) [
          | inl e ↦ rw e h
          | inr e ↦ rw e tt
        ]

  release_checkout-Lawful :
      (now : Millis) (s : Studio) → Lawful s0 s → Always (Lawful s0) (release_checkout now v s)
  unfolding release_checkout
  release_checkout-Lawful now s h =
      elim (Bool-cases (count (is_held_checkout v) s.db.checkouts == 1)) [
        | inl e ↦ rw e (same-Lawful s0 s _ refl refl refl h)
        | inr e ↦ rw e tt
      ]

  complete_job-Lawful :
      (now : Millis) (s : Studio) → Lawful s0 s → Always (Lawful s0) (complete_job now v s)
  unfolding complete_job
  complete_job-Lawful now s h = elim (Bool-cases (count (is_fenced_job v) (publications s) == 1)) [
    | inl e ↦ rw e (
        write-Lawful s0 (is_fenced_job v) (succeed now) s (λ j. refl)
          (λ j o. verified_moves j.state (ground arith)) h)
    | inr e ↦ rw e tt
  ]
    where
      verified_moves :
          (s : PublicationState) → is_verifying s ≡ true → Moves s PublicationState.succeeded
      verified_moves PublicationState.verifying e = Moves-move Move.succeed
      verified_moves PublicationState.requested e = absurd cc
      verified_moves PublicationState.assembling e = absurd cc
      verified_moves PublicationState.promoting e = absurd cc
      verified_moves PublicationState.needs_refresh e = absurd cc
      verified_moves PublicationState.succeeded e = absurd cc
      verified_moves PublicationState.restored e = absurd cc
      verified_moves PublicationState.recovery_required e = absurd cc
      verified_moves PublicationState.failed e = absurd cc

  archive_draft-Lawful :
      (now : Millis) (s : Studio) → Lawful s0 s → Lawful s0 (archive_draft now v s)
  unfolding archive_draft
  archive_draft-Lawful now s h = same-Lawful s0 s _ refl refl refl h

  record_events-Lawful : (s : Studio) → Lawful s0 s → Lawful s0 (record_events v s)
  unfolding record_events
  record_events-Lawful s h =
      append-Lawful s0 v.job.id EventKind.succeeded _ _
        (append-Lawful s0 v.job.id EventKind.verified _ s h)

  record_success-Lawful : (s : Studio) → Lawful s0 s → Lawful s0 (record_success v s)
  unfolding record_success
  record_success-Lawful s h = same-Lawful s0 s _ refl refl refl h

  abbrev Good : Studio → Type 0
  Good s = Lawful s0 s

  -- What is left once the production version is there.
  released-Lawful :
      (now : Millis) (x : ProductionVersion) (s : Studio)
      → Lawful s0 s
      → Always Good (
          set_production v x s >>= λ produced. add_receipt v produced >>= λ receipted.
          release_checkout now v receipted >>= λ released.
          update_attempt v.attempt_id
            (finish_attempt now none ReconciledState.succeeded)
            (record_success v (record_events v (archive_draft now v released)))
          >>= λ attempted. complete_job now v attempted)
  released-Lawful now x s h =
      Always-bind Good Good (set_production v x s) _ (set_production-Lawful x s h) (λ produced g.
        Always-bind Good Good (add_receipt v produced) _
          (unfold add_receipt in receipt_with-Lawful produced _ g)
          (λ receipted g.
            Always-bind Good Good (release_checkout now v receipted) _
              (release_checkout-Lawful now receipted g)
              (λ released g.
                Always-bind Good Good
                  (update_attempt v.attempt_id (finish_attempt now none ReconciledState.succeeded)
                    (record_success v (record_events v (archive_draft now v released))))
                  _
                  (update_attempt-Lawful s0 v.attempt_id now none ReconciledState.succeeded
                    (record_success v (record_events v (archive_draft now v released)))
                    (record_success-Lawful _
                      (record_events-Lawful _ (archive_draft-Lawful now released g))))
                  (λ attempted g. complete_job-Lawful now attempted g))))

  pub finalize_success-Lawful :
      (now : Millis) (s : Studio) → Lawful s0 s → Always (Lawful s0) (finalize_success now v s)
  unfolding finalize_success observe add_version
  finalize_success-Lawful now s h = elim (Bool-cases (is_held v s)) [
    | inr e ↦ rw e tt
    | inl e ↦ rw e (
        Always-bind (λ r. Good r.1) Good (observe v s) _ (observe_with-Lawful s _ h)
          (λ r g.
            Always-bind (λ r. Good r.1) Good (add_version now v r.0 r.1) _
              (version_with-Lawful now r.0 r.1 _ g) (λ q g. released-Lawful now q.0 q.1 g)))
  ]
