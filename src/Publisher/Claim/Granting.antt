-- ===== src/Publisher/Claim/Granting.antt =====
-- What a claim of a publication gives, and whom it shuts out.
use situation_studio.Prelude.{
  ◌≡◌, ◌≢◌, ◌⊎◌, refl, inl, inr, Bool, true, false, ◌&&◌, not, none, some, ◌+◌, List, [], ◌∷◌,
  arith, Uuid, Millis, ◌==◌, any, Bool-cases, Option-cases,
}
use situation_studio.Prelude.Rows.{select, update_many, count-zero}
use situation_studio.Prelude.Writes.{any-update_many_all, any-update_many, any_mono}
use situation_studio.Prelude.Members.{In, select-In, In-select, In-update_many}
use situation_studio.Prelude.Results.{err}
use situation_studio.Store.{PublicationJob, PublicationState, needs_recovery}
use situation_studio.Publisher.Tables.{Studio, publications}
use situation_studio.Publisher.Failure.{PublisherError}
use situation_studio.Publisher.Lease.{owned_update, is_owned, publication_lease_ms}
use situation_studio.Publisher.Claim.{
  claim_publication_job, first_of, next_publication, comes_before, is_claimable, is_live,
  take_claim,
}

first_of-none :
    (jobs : List PublicationJob) (k : PublicationJob) → first_of jobs ≡ none → In k jobs → ⊥
unfolding first_of
first_of-none [] k e m = m
first_of-none (x ∷ xs) k e m = elim (Option-cases (first_of xs)) [
  | inl n ↦ absurd (ground arith)
  | inr (y, s) ↦ absurd (ground arith)
]

first_of-In : (jobs : List PublicationJob) (j : PublicationJob) → first_of jobs ≡ some j → In j jobs
unfolding first_of
first_of-In [] j e = absurd (ground arith)
first_of-In (x ∷ xs) j e = elim (Option-cases (first_of xs)) [
  | inl n ↦ inl (ground arith)
  | inr (y, s) ↦ elim (Bool-cases (comes_before x y)) [
    | inl b ↦ inl (ground arith)
    | inr b ↦ inr (first_of-In xs j (ground arith))
  ]
]

-- Nobody in the list comes before the first.
first_of-comes_before :
    (jobs : List PublicationJob) (j k : PublicationJob)
    → first_of jobs ≡ some j
    → In k jobs
    → comes_before k j ≡ false
unfolding first_of
first_of-comes_before [] j k e m = elim m [ ]
first_of-comes_before (x ∷ xs) j k e m = elim (Option-cases (first_of xs)) [
  | inl n ↦ alone n m
  | inr (y, s) ↦ second y s m (λ i. first_of-comes_before xs y k s i)
]
  where
    alone : first_of xs ≡ none → (k ≡ x) ⊎ In k xs → comes_before k j ≡ false
    alone n (inl same) = ground arith
    alone n (inr i) = absurd (first_of-none xs k n i)

    second :
        (y : PublicationJob)
        → first_of xs ≡ some y
        → (k ≡ x) ⊎ In k xs
        → (In k xs → comes_before k y ≡ false)
        → comes_before k j ≡ false
    second y s (inl same) ih = ground arith
    second y s (inr i) ih = let h : comes_before k y ≡ false = ih i in ground arith

next_publication-Claimable :
    (now : Millis) (jobs : List PublicationJob) (j : PublicationJob)
    → next_publication now jobs ≡ some j
    → In j jobs
      × (is_claimable now j ≡ true)
      × ((k : PublicationJob) → In k jobs → is_claimable now k ≡ true → comes_before k j ≡ false)
unfolding next_publication
next_publication-Claimable now jobs j e =
    let (m, c) =
      select-In (is_claimable now) jobs j (first_of-In (select (is_claimable now) jobs) j e) in
    (
      m,
      c,
      λ k i h.
          first_of-comes_before (select (is_claimable now) jobs) j k e
            (In-select (is_claimable now) jobs k i h),
    )

-- What the publications are when `id` has been claimed.
claim_writes :
    (now : Millis) (token id : Uuid) (s s' : Studio)
    → claim_publication_job now token s ≡ (some id, s')
    → (any (λ j. needs_recovery j.state) (publications s) ≡ false)
      × (any (is_live now) (publications s) ≡ false)
      × (j : PublicationJob) × (next_publication now (publications s) ≡ some j)
      × (j.id ≡ id)
      × (publications s' ≡ update_many (λ k. k.id == id) (take_claim now token) (publications s))
unfolding claim_publication_job
claim_writes now token id s s' c = elim (Option-cases (next_publication now (publications s))) [
  | inl n ↦ absurd (ground arith)
  | inr (j, e) ↦
      let same : j.id ≡ id = ground arith in
      let written : publications s'
          ≡ update_many (λ k. k.id == j.id) (take_claim now token) (publications s) =
        ground arith in
      (ground arith, ground arith, j, e, same, rw same at written)
]

claimed_out :
    (now : Millis) (token old id : Uuid) (states : PublicationState → Bool)
    (jobs : List PublicationJob)
    → old ≢ token
    → any (is_owned id old states) (update_many (λ k. k.id == id) (take_claim now token) jobs)
      ≡ false
claimed_out now token old id states jobs other =
    any-update_many_all (is_owned id old states) (λ k. k.id == id) (take_claim now token)
      (λ k h. ground (arith, other)) (λ k h. ground arith) jobs

owned_update_refused :
    (lost : PublisherError) (job_id token : Uuid) (states : PublicationState → Bool)
    (write : PublicationJob → PublicationJob) (s : Studio)
    → any (is_owned job_id token states) (publications s) ≡ false
    → owned_update lost job_id token states write s ≡ err lost
unfolding owned_update
owned_update_refused lost job_id token states write s h =
    rw (count-zero (is_owned job_id token states) (publications s) h) refl

claimed_live :
    (now : Millis) (token : Uuid) (j : PublicationJob)
    → is_claimable now j ≡ true
    → is_live now (take_claim now token j) ≡ true
unfolding is_claimable is_live
claimed_live now token j h = ground arith

-- A claim gives the first job that may be claimed, while no job awaits recovery and no lease runs:
-- then the claimed job is live, under the new token and for a whole lease, no other job is live, and
-- every write of it under another token is refused.
pub claim-Exclusive :
    (now : Millis) (token id : Uuid) (s s' : Studio)
    → claim_publication_job now token s ≡ (some id, s')
    → (any (λ j. needs_recovery j.state) (publications s) ≡ false)
      × ((j : PublicationJob) × In j (publications s)
          × (j.id ≡ id)
          × (is_claimable now j ≡ true)
          × ((k : PublicationJob)
              → In k (publications s)
              → is_claimable now k ≡ true
              → comes_before k j ≡ false))
      × ((k : PublicationJob) × In k (publications s')
          × (k.id ≡ id)
          × (k.claim_token ≡ some token)
          × (k.lease_expires_at ≡ some (now + publication_lease_ms))
          × (is_live now k ≡ true))
      × (any (λ j. is_live now j && not (j.id == id)) (publications s') ≡ false)
      × ((lost : PublisherError) (old : Uuid) (states : PublicationState → Bool)
            (write : PublicationJob → PublicationJob)
          → old ≢ token
          → owned_update lost id old states write s' ≡ err lost)
claim-Exclusive now token id s s' c =
    let (recovery, live, j, e, same, written) = claim_writes now token id s s' c in
    let (m, claimable, first) = next_publication-Claimable now (publications s) j e in
    (
      recovery,
      (j, m, same, claimable, first),
      (
        take_claim now token j,
        rw written (
            In-update_many (λ k. k.id == id) (take_claim now token) (publications s) j m
              (ground (arith, same))),
        same,
        refl,
        refl,
        claimed_live now token j claimable,
      ),
      rw written (
          any-update_many (λ j. is_live now j && not (j.id == id)) (λ k. k.id == id)
            (take_claim now token) (λ k h. unfold is_live in ground arith) (publications s)
            (any_mono (λ j. is_live now j && not (j.id == id)) (is_live now) (λ k h. ground arith)
              (publications s) live)),
      λ lost old states write other.
          owned_update_refused lost id old states write s'
            (rw written (claimed_out now token old id states (publications s) other)),
    )
