-- ===== src/Worker/Lane/Claims.antt =====
-- What a claim gives, and when it gives nothing.
use situation_studio.Prelude.{
  ◌≡◌, ◌⊎◌, inl, inr, Bool, true, false, ◌&&◌, none, some, List, [], ◌∷◌, arith, Uuid, any,
  Option-cases,
}
use situation_studio.Prelude.Rows.{find_first, select, find_first-none}
use situation_studio.Prelude.Members.{In, In-select}
use situation_studio.Prelude.Results.{ok}
use situation_studio.Store.{Db, ReviewJob, Checkout, is_running, is_queued}
use situation_studio.Worker.Failure.{Timing}
use situation_studio.Worker.Lane.{
  checkout_active, update_job, set_lane, vacate, focus, take_over, claim_transaction,
  claim_next_review, not_before, must_wait, is_stale, earliest, is_before, next_queued, lost_race,
}
use situation_studio.Worker.Lane.Focusing.{next_queued-In}
use situation_studio.Worker.Lane.Invariant.{has_lane}

-- While the focused job runs under a live lease and a live checkout, a claim gives nothing and
-- changes nothing.
pub claim_excluded :
    (timing : Timing) (token : Uuid) (db : Db) (j : ReviewJob)
    → find_first (λ k. k.lane_owner) db.jobs ≡ some j
    → checkout_active db.checkouts j ≡ true
    → is_running j.state ≡ true
    → not_before j.lease_expires_at timing.now ≡ true
    → claim_next_review timing token db ≡ ok (none, db)
unfolding claim_next_review claim_transaction vacate is_stale focus take_over must_wait
claim_excluded timing token db j e c r l = ground arith

earliest-none : (jobs : List ReviewJob) (k : ReviewJob) → earliest jobs ≡ none → In k jobs → ⊥
unfolding earliest
earliest-none [] k e m = m
earliest-none (x ∷ xs) k e m = cc

-- Nobody in the list is before the earliest.
earliest_first :
    (jobs : List ReviewJob) (j k : ReviewJob)
    → earliest jobs ≡ some j
    → In k jobs
    → is_before k j ≡ false
unfolding earliest
earliest_first [] j k e m = elim m [ ]
earliest_first (x ∷ xs) j k e m = elim (Option-cases (earliest xs)) [
  | inl n ↦ alone n m
  | inr (y, s) ↦ second y s m (λ i. earliest_first xs y k s i)
]
  where
    alone : earliest xs ≡ none → (k ≡ x) ⊎ In k xs → is_before k j ≡ false
    alone n (inl same) = unfold is_before in ground arith
    alone n (inr i) = absurd (earliest-none xs k n i)

    second :
        (y : ReviewJob)
        → earliest xs ≡ some y
        → (k ≡ x) ⊎ In k xs
        → (In k xs → is_before k y ≡ false)
        → is_before k j ≡ false
    second y s (inl same) ih = unfold is_before in ground arith
    second y s (inr i) ih = let h : is_before k y ≡ false = ih i in unfold is_before in ground arith

abbrev pub may_start : List Checkout → ReviewJob → Bool
may_start checkouts j = is_queued j.state && checkout_active checkouts j

take_over_id :
    (timing : Timing) (token id : Uuid) (db db' : Db) (j : ReviewJob) (jobs : List ReviewJob)
    → lost_race db (take_over timing token db j jobs) ≡ ok (some id, db')
    → j.id ≡ id
unfolding take_over
take_over_id timing token id db db' j jobs h = ground arith

-- With a free lane the claimed job is a queued one under a live checkout, and no such job was queued
-- before it.
pub claim_fifo :
    (timing : Timing) (token id : Uuid) (db db' : Db)
    → any has_lane db.jobs ≡ false
    → claim_next_review timing token db ≡ ok (some id, db')
    → (j : ReviewJob) × In j db.jobs
      × (j.id ≡ id)
      × (may_start db.checkouts j ≡ true)
      × ((k : ReviewJob) → In k db.jobs → may_start db.checkouts k ≡ true → is_before k j ≡ false)
unfolding claim_next_review claim_transaction vacate focus
claim_fifo timing token id db db' free c = elim (Option-cases (next_queued db.checkouts db.jobs)) [
  | inl n ↦ absurd (ground (arith, find_first-none has_lane db.jobs free))
  | inr (j, e) ↦
      let (m, q) = next_queued-In db.checkouts db.jobs j e in
      (
        j,
        m,
        ground (
          arith,
          find_first-none has_lane db.jobs free,
          take_over_id timing token id db db' j (update_job j.id (set_lane true) db.jobs),
        ),
        q,
        λ k i h.
            earliest_first (select (may_start db.checkouts) db.jobs) j k (unfold next_queued in e)
              (In-select (may_start db.checkouts) db.jobs k i h),
      )
]
