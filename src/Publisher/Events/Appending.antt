-- ===== src/Publisher/Events/Appending.antt =====
-- What appending an event does to the history of a publication.
use situation_studio.Prelude.{
  ◌≡◌, refl, inl, inr, true, false, List, [], ◌∷◌, arith, Uuid, any, Bool-cases, suc, eq_iff,
}
use situation_studio.Prelude.Writes.{any-snoc}
use situation_studio.Store.{EventKind, Scalar, absent, flag, number, text}
use situation_studio.Publisher.Tables.{Studio}
use situation_studio.Publisher.Events.{
  append_publication_event, of_job, is_duplicate, payload_eq, greatest,
}
use situation_studio.Publisher.Events.Numbering.{Numbered, Numbered-snoc}

-- The events of every job are numbered 1, 2, … without a gap or a repetition.
abbrev pub EventsNumbered : Studio → Type 0
EventsNumbered s = (job_id : Uuid) → Numbered (of_job job_id) (λ e. e.sequence) s.events

pub append-EventsNumbered :
    (job_id : Uuid) (kind : EventKind) (payload : List Scalar) (s : Studio)
    → EventsNumbered s
    → EventsNumbered (append_publication_event job_id kind payload s)
unfolding append_publication_event
append-EventsNumbered job_id kind payload s inv i =
    elim (Bool-cases (any (is_duplicate job_id kind payload) s.events)) [
      | inl e ↦ rw e (inv i)
      | inr e ↦ rw e (
          Numbered-snoc (of_job i) (λ e. e.sequence)
            (record {
              job_id = job_id;
              sequence = suc (greatest (of_job job_id) (λ e. e.sequence) s.events);
              kind = kind;
              payload = payload;
            })
            s.events (inv i) (λ h. let same : job_id ≡ i = ground arith in rw same refl))
    ]

payload_eq_self : (xs : List Scalar) → payload_eq xs xs ≡ true
unfolding payload_eq
payload_eq_self [] = refl
payload_eq_self (absent ∷ xs) = payload_eq_self xs
payload_eq_self (flag true ∷ xs) = payload_eq_self xs
payload_eq_self (flag false ∷ xs) = payload_eq_self xs
payload_eq_self (number n ∷ xs) = ground (arith, payload_eq_self xs)
payload_eq_self (text t ∷ xs) = ground (arith, payload_eq_self xs, eq_iff t t)

-- Only the events change.
pub append_only :
    (job_id : Uuid) (kind : EventKind) (payload : List Scalar) (s : Studio)
    → ((append_publication_event job_id kind payload s).db ≡ s.db)
      × ((append_publication_event job_id kind payload s).attempts ≡ s.attempts)
unfolding append_publication_event
append_only job_id kind payload s =
    elim (Bool-cases (any (is_duplicate job_id kind payload) s.events)) [
      | inl e ↦ rw e (refl, refl)
      | inr e ↦ rw e (refl, refl)
    ]

pub append_receipts :
    (job_id : Uuid) (kind : EventKind) (payload : List Scalar) (s : Studio)
    → (append_publication_event job_id kind payload s).receipts ≡ s.receipts
unfolding append_publication_event
append_receipts job_id kind payload s =
    elim (Bool-cases (any (is_duplicate job_id kind payload) s.events)) [
      | inl e ↦ rw e refl
      | inr e ↦ rw e refl
    ]

module _ (job_id : Uuid) (kind : EventKind) (payload : List Scalar) (s : Studio) where
  append_known :
      any (is_duplicate job_id kind payload) s.events ≡ true
      → append_publication_event job_id kind payload s ≡ s
  unfolding append_publication_event
  append_known h = rw h refl

  append_recorded :
      any (is_duplicate job_id kind payload) (append_publication_event job_id kind payload s).events
      ≡ true
  unfolding append_publication_event
  append_recorded = elim (Bool-cases (any (is_duplicate job_id kind payload) s.events)) [
    | inl e ↦ rw (e, e) refl
    | inr e ↦ rw e (
        ground (
          arith,
          any-snoc (is_duplicate job_id kind payload)
              (record {
                job_id = job_id;
                sequence = suc (greatest (of_job job_id) (λ e. e.sequence) s.events);
                kind = kind;
                payload = payload;
              })
              s.events,
          payload_eq_self payload,
        ))
  ]

-- A retry that reports what is already in the history adds nothing.
pub append_idempotent :
    (job_id : Uuid) (kind : EventKind) (payload : List Scalar) (s : Studio)
    → append_publication_event job_id kind payload (append_publication_event job_id kind payload s)
      ≡ append_publication_event job_id kind payload s
append_idempotent job_id kind payload s =
    append_known job_id kind payload (append_publication_event job_id kind payload s)
      (append_recorded job_id kind payload s)
