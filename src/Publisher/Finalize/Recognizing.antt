-- ===== src/Publisher/Finalize/Recognizing.antt =====
-- A recorded success is recognized: what `finalizeSuccess` writes, the check of the `catch` clause finds.
use situation_studio.Prelude.{
  ◌≡◌, refl, arith, inl, inr, Bool, true, false, ◌&&◌, Option, none, some, List, [], ◌∷◌, ◌++◌,
  Millis, Bool-cases, Option-cases, ◌==◌, holds,
}
use situation_studio.Prelude.Rows.{count, find_first, find_first_sound}
use situation_studio.Prelude.Writes.{find_first-update_many}
use situation_studio.Prelude.Results.{Always, Always-bind, ◌>>=◌}
use situation_studio.Store.{
  PublicationJob, EventKind, Scalar, ReconciledState, ReleaseObservation, ProductionVersion,
  VerificationReceipt,
}
use situation_studio.Publisher.Tables.{Studio, publications}
use situation_studio.Publisher.Events.Appending.{append_only, append_receipts}
use situation_studio.Publisher.Events.{append_publication_event}
use situation_studio.Publisher.Attempts.{finish_attempt}
use situation_studio.Publisher.Outcome.{update_attempt}
use situation_studio.Publisher.Process.{was_finalized}
use situation_studio.Publisher.Finalize.{
  Verified, is_held, observe, observe_with, add_version, version_with, set_production,
  is_fenced_situation, add_receipt, receipt_with, receipt_of, release_checkout, is_held_checkout,
  archive_draft, record_events, record_success, complete_job, is_fenced_job, succeed,
  finalize_success,
}

find_first-snoc :
    {A : Type 0} (p : A → Bool) (xs : List A) (x : A)
    → find_first p xs ≡ none
    → p x ≡ true
    → find_first p (xs ++ x ∷ []) ≡ some x
unfolding find_first
find_first-snoc p [] x n h = ground arith
find_first-snoc p (y ∷ ys) x n h = ground (arith, find_first-snoc p ys x)

module _ (v : Verified) where
  abbrev with_id : PublicationJob → Bool
  with_id j = j.id == v.job.id

  abbrev receipt_found : Studio → Option VerificationReceipt
  receipt_found s = find_first (λ r. r.job_id == v.job.id) s.receipts

  module _ (j : PublicationJob) where
    -- The job is still the one that was read.
    abbrev Job : Studio → Type 0
    Job s = find_first with_id (publications s) ≡ some j

    abbrev Receipt : Studio → Type 0
    Receipt s =
        (r : VerificationReceipt) × (receipt_found s ≡ some r)
        × (r.expected_release_id ≡ v.candidate.release_id)
        × (r.expected_manifest_hash ≡ v.candidate.manifest_hash)

    abbrev Both : Studio → Type 0
    Both s = Job s × Receipt s

    observe-Job :
        (s : Studio) (o : Option ReleaseObservation)
        → Job s
        → Always (λ r. Job r.1) (observe_with v s o)
    observe-Job s none h = h
    observe-Job s (some o) h =
        elim (Bool-cases (
          o.manifest_hash == v.candidate.manifest_hash
          && holds o.pointer_generation v.identity.generation)) [ inl e ↦ rw e h | inr e ↦ rw e tt ]

    version-Job :
        (now : Millis) (o : ReleaseObservation) (s : Studio) (x : Option ProductionVersion)
        → Job s
        → Always (λ r. Job r.1) (version_with now v o s x)
    version-Job now o s none h = h
    version-Job now o s (some x) h = elim (Bool-cases (x.bundle_hash == v.candidate.bundle_hash)) [
      | inl e ↦ rw e h
      | inr e ↦ rw e tt
    ]

    production-Job :
        (x : ProductionVersion) (s : Studio) → Job s → Always Job (set_production v x s)
    unfolding set_production
    production-Job x s h = elim (Bool-cases (count (is_fenced_situation v) s.db.situations == 1)) [
      | inl e ↦ rw e h
      | inr e ↦ rw e tt
    ]

    receipt-Both :
        (s : Studio) (o : Option VerificationReceipt)
        → receipt_found s ≡ o
        → Job s
        → Always Both (receipt_with v s o)
    receipt-Both s none e h = (
      h,
      (
        receipt_of v,
        find_first-snoc (λ r. r.job_id == v.job.id) s.receipts (receipt_of v) e (ground arith),
        refl,
        refl,
      ),
    )
    receipt-Both s (some r) e h =
        elim (Bool-cases (
          r.expected_release_id == v.candidate.release_id
          && r.expected_manifest_hash == v.candidate.manifest_hash)) [
            | inl t ↦ rw t (h, (r, e, ground arith, ground arith))
            | inr t ↦ rw t tt
          ]

    checkout-Both : (now : Millis) (s : Studio) → Both s → Always Both (release_checkout now v s)
    unfolding release_checkout
    checkout-Both now s h = elim (Bool-cases (count (is_held_checkout v) s.db.checkouts == 1)) [
      | inl e ↦ rw e h
      | inr e ↦ rw e tt
    ]

    append-Both :
        (kind : EventKind) (payload : List Scalar) (s : Studio)
        → Both s
        → Both (append_publication_event v.job.id kind payload s)
    append-Both kind payload s h =
        let (same_db, same_attempts) = append_only v.job.id kind payload s in
        rw (same_db, append_receipts v.job.id kind payload s) h

    events-Both : (s : Studio) → Both s → Both (record_events v s)
    unfolding record_events
    events-Both s h = append-Both EventKind.succeeded _ _ (append-Both EventKind.verified _ s h)

    draft-Both : (now : Millis) (s : Studio) → Both s → Both (archive_draft now v s)
    unfolding archive_draft
    draft-Both now s h = h

    success-Both : (s : Studio) → Both s → Both (record_success v s)
    unfolding record_success
    success-Both s h = h

    attempt-Both :
        (now : Millis) (s : Studio)
        → Both s
        → Always Both
            (update_attempt v.attempt_id (finish_attempt now none ReconciledState.succeeded) s)
    unfolding update_attempt
    attempt-Both now s h = elim (Bool-cases (count (λ a. a.id == v.attempt_id) s.attempts == 0)) [
      | inl e ↦ rw e tt
      | inr e ↦ rw e h
    ]

    abbrev Recognized : Studio → Type 0
    Recognized s = was_finalized v.job.id (some v.candidate) s ≡ true

    complete-Recognized :
        (now : Millis) (s : Studio)
        → is_fenced_job v j ≡ true
        → Both s
        → Always Recognized (complete_job now v s)
    unfolding complete_job was_finalized
    complete-Recognized now s held (e, (r, f, g, k)) =
        elim (Bool-cases (count (is_fenced_job v) (publications s) == 1)) [
          | inl t ↦ rw t (
              rw
                (
                  find_first-update_many with_id (is_fenced_job v) (succeed now) (λ x h. refl)
                      (publications s) j e,
                  held,
                  f,
                )
                (ground arith))
          | inr t ↦ rw t tt
        ]

    -- What is left once the production version is there.
    released-Recognized :
        (now : Millis) (x : ProductionVersion) (s : Studio)
        → is_fenced_job v j ≡ true
        → Job s
        → Always Recognized (
            set_production v x s >>= λ produced. add_receipt v produced >>= λ receipted.
            release_checkout now v receipted >>= λ released.
            update_attempt v.attempt_id
              (finish_attempt now none ReconciledState.succeeded)
              (record_success v (record_events v (archive_draft now v released)))
            >>= λ attempted. complete_job now v attempted)
    released-Recognized now x s held h =
        Always-bind Job Recognized (set_production v x s) _ (production-Job x s h) (λ produced g.
          Always-bind Both Recognized (add_receipt v produced) _
            (unfold add_receipt in receipt-Both produced (receipt_found produced) refl g)
            (λ receipted g.
              Always-bind Both Recognized (release_checkout now v receipted) _
                (checkout-Both now receipted g)
                (λ released g.
                  Always-bind Both Recognized
                    (update_attempt v.attempt_id (finish_attempt now none ReconciledState.succeeded)
                      (record_success v (record_events v (archive_draft now v released))))
                    _
                    (attempt-Both now
                      (record_success v (record_events v (archive_draft now v released)))
                      (success-Both _ (events-Both _ (draft-Both now released g))))
                    (λ attempted g. complete-Recognized now attempted held g))))

    finalized-Recognized :
        (now : Millis) (s : Studio)
        → is_fenced_job v j ≡ true
        → Job s
        → Always Recognized (finalize_success now v s)
    unfolding finalize_success observe add_version
    finalized-Recognized now s held h = elim (Bool-cases (is_held v s)) [
      | inr e ↦ rw e tt
      | inl e ↦ rw e (
          Always-bind (λ r. Job r.1) Recognized (observe v s) _ (observe-Job s _ h)
            (λ r g.
              Always-bind (λ r. Job r.1) Recognized (add_version now v r.0 r.1) _
                (version-Job now r.0 r.1 _ g) (λ q g. released-Recognized now q.0 q.1 held g)))
    ]

  -- Without a held job, the transaction is refused.
  refused :
      (now : Millis) (s : Studio)
      → is_held v s ≡ false
      → Always
          (λ s'. was_finalized v.job.id (some v.candidate) s' ≡ true)
          (finalize_success now v s)
  unfolding finalize_success
  refused now s e = rw e tt

-- A publication that `finalizeSuccess` has recorded is the one that the `catch` clause recognizes as
-- finalized for its candidate, so that a lost answer to the commit is not taken for a failure.
pub finalize_recognized :
    (now : Millis) (v : Verified) (s : Studio)
    → Always (λ s'. was_finalized v.job.id (some v.candidate) s' ≡ true) (finalize_success now v s)
finalize_recognized now v s = elim (Option-cases (find_first (with_id v) (publications s))) [
  | inl e ↦ refused v now s (rw e refl)
  | inr (j, e) ↦ elim (Bool-cases (is_fenced_job v j)) [
    | inl held ↦ finalized-Recognized v j now s held e
    | inr free ↦
        refused v now s (rw e (ground (arith, find_first_sound (with_id v) (publications s) j)))
  ]
]
