-- ===== src/Publisher/Attempts/Counting.antt =====
-- The attempts of a job are numbered without a gap, and at most one of them is open.
use situation_studio.Prelude.{
  ◌≤◌, ◌≡◌, refl, inl, inr, Bool, Option, none, some, List, arith, Uuid, Millis, ◌==◌, holds, suc,
  Bool-cases,
}
use situation_studio.Prelude.Rows.{update_many, find_first, count, count-zero}
use situation_studio.Prelude.Writes.{
  count-update_many_same, any-update_many_all, count-snoc, count-update_many-le_of,
}
use situation_studio.Prelude.Results.{Always}
use situation_studio.Store.{
  PublicationJob, PublicationAttempt, FailureCode, ReconciledState, interrupted_before_retry,
}
use situation_studio.Publisher.Tables.{Studio, publications}
use situation_studio.Publisher.Events.{greatest}
use situation_studio.Publisher.Events.Numbering.{
  Numbered, Numbered-snoc, bears, greatest-update_many,
}
use situation_studio.Publisher.Attempts.{
  attempt_of, is_open, finish_attempt, new_attempt, next_attempt, open_attempt,
  start_publication_attempt, start_with,
}

abbrev pub AttemptsInv : List PublicationAttempt → Type 0
AttemptsInv attempts =
    (job_id : Uuid)
    → Numbered (attempt_of job_id) (λ a. a.attempt) attempts × (count (is_open job_id) attempts ≤ 1)

-- Closing attempts keeps their numbers.
finish-Numbered :
    (p : PublicationAttempt → Bool) (now : Millis) (code : Option FailureCode)
    (state : ReconciledState) (job_id : Uuid) (attempts : List PublicationAttempt)
    → Numbered (attempt_of job_id) (λ a. a.attempt) attempts
    → Numbered
        (attempt_of job_id)
        (λ a. a.attempt)
        (update_many p (finish_attempt now code state) attempts)
finish-Numbered p now code state job_id attempts inv = record {
  once = λ n. ground (
    arith,
    count-update_many_same (bears (attempt_of job_id) (λ a. a.attempt) n) p
        (finish_attempt now code state) (λ a h. refl) attempts,
    count-update_many_same (attempt_of job_id) p (finish_attempt now code state) (λ a h. refl)
        attempts,
    inv.once n,
  );
  last = ground (
    arith,
    greatest-update_many (attempt_of job_id) (λ a. a.attempt) p (finish_attempt now code state)
        (λ a. refl) (λ a. refl) attempts,
    count-update_many_same (attempt_of job_id) p (finish_attempt now code state) (λ a h. refl)
        attempts,
    inv.last,
  );
}

-- Finishing attempts keeps the invariant.
pub finish-AttemptsInv :
    (p : PublicationAttempt → Bool) (now : Millis) (code : Option FailureCode)
    (state : ReconciledState) (attempts : List PublicationAttempt)
    → AttemptsInv attempts
    → AttemptsInv (update_many p (finish_attempt now code state) attempts)
finish-AttemptsInv p now code state attempts inv job_id =
    let (numbered, opened) = inv job_id in
    (
      finish-Numbered p now code state job_id attempts numbered,
      omega (
        arith,
        opened,
        count-update_many-le_of (is_open job_id) p (finish_attempt now code state)
            (λ a h k. ground arith) attempts,
      ),
    )

module _ (now : Millis) (id job_id : Uuid) (s : Studio) (inv : AttemptsInv s.attempts) where
  abbrev closed : List PublicationAttempt
  closed =
      update_many (is_open job_id)
        (finish_attempt now (some FailureCode.publisher_process_interrupted)
          (interrupted_before_retry (next_attempt job_id s.attempts)))
        s.attempts

  closed-AttemptsInv : AttemptsInv closed
  closed-AttemptsInv =
      finish-AttemptsInv (is_open job_id) now (some FailureCode.publisher_process_interrupted)
        (interrupted_before_retry (next_attempt job_id s.attempts)) s.attempts inv

  none_open : count (is_open job_id) closed ≡ 0
  none_open = count-zero (is_open job_id) closed (
      any-update_many_all (is_open job_id) (is_open job_id)
        (finish_attempt now (some FailureCode.publisher_process_interrupted)
          (interrupted_before_retry (next_attempt job_id s.attempts)))
        (λ a h. ground arith) (λ a h. h) s.attempts)

  same_greatest :
      next_attempt job_id s.attempts ≡ suc (greatest (attempt_of job_id) (λ a. a.attempt) closed)
  unfolding next_attempt
  same_greatest = ground (
    arith,
    greatest-update_many (attempt_of job_id) (λ a. a.attempt) (is_open job_id)
        (finish_attempt now (some FailureCode.publisher_process_interrupted)
          (interrupted_before_retry (next_attempt job_id s.attempts)))
        (λ a. refl) (λ a. refl) s.attempts,
  )

  pub open_attempt-AttemptsInv : AttemptsInv (open_attempt now id job_id s).1.attempts
  unfolding open_attempt
  open_attempt-AttemptsInv i =
      let (numbered, opened) = closed-AttemptsInv i in
      let fresh = new_attempt id job_id (next_attempt job_id s.attempts) in
      (
        Numbered-snoc (attempt_of i) (λ a. a.attempt) fresh closed numbered
            (λ h. let same : job_id ≡ i = ground arith in rw (← same) same_greatest),
        elim (Bool-cases (job_id == i)) [
          | inl e ↦
              let same : job_id ≡ i = ground arith in
              let empty : count (is_open i) closed ≡ 0 = rw (← same) none_open in
              ground (arith, count-snoc (is_open i) fresh closed, empty)
          | inr e ↦ ground (arith, count-snoc (is_open i) fresh closed, opened)
        ],
      )

start_with-AttemptsInv :
    (now : Millis) (id token : Uuid) (s : Studio) (job : Option PublicationJob)
    → AttemptsInv s.attempts
    → Always (λ r. AttemptsInv r.2.attempts) (start_with now id token s job)
start_with-AttemptsInv now id token s none inv = tt
start_with-AttemptsInv now id token s (some job) inv =
    elim (Bool-cases (holds job.claim_token token)) [
      | inl e ↦ rw e (open_attempt-AttemptsInv now id job.id s inv)
      | inr e ↦ rw e tt
    ]

-- Starting an attempt keeps the attempts of every job numbered 1, 2, … with at most one open.
pub start-AttemptsInv :
    (now : Millis) (id job_id token : Uuid) (s : Studio)
    → AttemptsInv s.attempts
    → Always (λ r. AttemptsInv r.2.attempts) (start_publication_attempt now id job_id token s)
unfolding start_publication_attempt
start-AttemptsInv now id job_id token s inv =
    start_with-AttemptsInv now id token s (find_first (λ j. j.id == job_id) (publications s)) inv

start_with_only :
    (now : Millis) (id token : Uuid) (s : Studio) (job : Option PublicationJob)
    → Always (λ q. (q.2.db ≡ s.db) × (q.2.events ≡ s.events)) (start_with now id token s job)
unfolding open_attempt
start_with_only now id token s none = tt
start_with_only now id token s (some job) = elim (Bool-cases (holds job.claim_token token)) [
  | inl e ↦ rw e (refl, refl)
  | inr e ↦ rw e tt
]

-- Only the attempts change.
pub started_only :
    (now : Millis) (id job_id token : Uuid) (s : Studio)
    → Always
        (λ q. (q.2.db ≡ s.db) × (q.2.events ≡ s.events))
        (start_publication_attempt now id job_id token s)
unfolding start_publication_attempt
started_only now id job_id token s =
    start_with_only now id token s (find_first (λ j. j.id == job_id) (publications s))
