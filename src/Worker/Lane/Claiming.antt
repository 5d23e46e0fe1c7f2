-- ===== src/Worker/Lane/Claiming.antt =====
-- A claim keeps the lane's invariant.
use mathlib.Core.Path.{subst}
use mathlib.Core.Option.{some-injective}
use situation_studio.Prelude.Members.{In, In-update_many}
use situation_studio.Prelude.{
  ◌+◌, ◌==◌, ◌≡◌, refl, inl, inr, Bool, true, false, ◌&&◌, not, Option, none, some, List, arith,
  Millis, Uuid, Bool-cases,
}
use situation_studio.Prelude.Results.{Result, ok}
use situation_studio.Store.{Db, ReviewJob, Checkout, JobState, is_running, is_active}
use situation_studio.Worker.Failure.{Timing, WorkerError, lease_duration_ms}
use situation_studio.Worker.Lane.{
  checkout_active, take_over, claim_transaction, claim_next_review, must_wait, reset_if, grant,
  start_claim,
}
use situation_studio.Worker.Lane.Invariant.{LaneInv, Writes, write-LaneInv, LaneInv-review_keys}
use situation_studio.Worker.Lane.Focusing.{Focused, Focusing, focus_total}

abbrev may_claim : List Checkout → ReviewJob → Bool
may_claim checkouts x = x.lane_owner && checkout_active checkouts x && is_active x.state

live_claim :
    (checkouts : List Checkout) (now lease : Millis) (token : Uuid) (b : Bool) (x : ReviewJob)
    → may_claim checkouts x ≡ true
    → (is_running (start_claim now lease token (reset_if b x)).state
        && not (checkout_active checkouts (start_claim now lease token (reset_if b x))))
      ≡ false
unfolding start_claim checkout_active
live_claim checkouts now lease token true x h = ground arith
live_claim checkouts now lease token false x h = ground arith

claims :
    (checkouts : List Checkout) (now lease : Millis) (token : Uuid) (b : Bool)
    → Writes checkouts (may_claim checkouts) (λ k. start_claim now lease token (reset_if b k))
unfolding start_claim checkout_active
claims checkouts now lease token b = record {
  ids = λ x. ground arith;
  lanes = λ x. ground arith;
  owns = λ x. ground arith;
  lives = live_claim checkouts now lease token b;
  actives = λ x. ground arith;
  situations = λ x. ground arith;
  checkouts_kept = λ x. ground arith;
}

-- The claimed row: running, focused, and under the new token and lease.
abbrev pub Granted : Timing → Uuid → Millis → Uuid → Db → Type 0
Granted timing token lease id db =
    (k : ReviewJob) × In k db.jobs
    × (k.id ≡ id)
    × (k.state ≡ JobState.running)
    × (k.claim_token ≡ some token)
    × (k.lease_expires_at ≡ some (timing.now + lease))
    × (k.lane_owner ≡ true)

module _ (timing : Timing) (token : Uuid) (db : Db) (lease : Millis)
    (valid : lease_duration_ms timing ≡ ok lease) where
  grant-LaneInv :
      (j k : ReviewJob) (jobs : List ReviewJob)
      → LaneInv db.checkouts jobs
      → Focused db.checkouts jobs j k
      → LaneInv db.checkouts (grant timing lease token db j jobs).jobs
  unfolding grant
  grant-LaneInv j k jobs inv f = rw (← f.ids) (
      write-LaneInv db.checkouts jobs inv k (may_claim db.checkouts) f.member
        (ground (arith, f.lane, f.active, f.held))
        (λ x. start_claim timing.now lease token (reset_if (is_running j.state) x))
        (claims db.checkouts timing.now lease token (is_running j.state)))

  grant-Granted :
      (j k : ReviewJob) (jobs : List ReviewJob)
      → Focused db.checkouts jobs j k
      → Granted timing token lease j.id (grant timing lease token db j jobs)
  unfolding grant
  grant-Granted j k jobs f = (
    start_claim timing.now lease token (reset_if (is_running j.state) k),
    In-update_many (λ x. x.id == j.id)
        (λ x. start_claim timing.now lease token (reset_if (is_running j.state) x)) jobs k f.member
        (ground (arith, f.ids)),
    reset_id,
    refl,
    refl,
    refl,
    reset_lane,
  )
    where
      reset_id : (reset_if (is_running j.state) k).id ≡ j.id
      reset_id = ground (arith, f.ids)

      reset_lane : (reset_if (is_running j.state) k).lane_owner ≡ true
      reset_lane = ground (arith, f.lane)

  Served : Result WorkerError (Option Uuid × Db) → Type 0
  Served r =
      (id : Option Uuid) × (db' : Db) × (r ≡ ok (id, db'))
      × LaneInv db'.checkouts db'.jobs
      × ((i : Uuid) → id ≡ some i → Granted timing token lease i db')

  take_over-Served :
      (j k : ReviewJob) (jobs : List ReviewJob)
      → LaneInv db.checkouts jobs
      → Focused db.checkouts jobs j k
      → Served (take_over timing token db j jobs)
  unfolding take_over grant Served
  take_over-Served j k jobs inv f = elim (Bool-cases (must_wait timing.now j)) [
    | inl e ↦ (none, record db { jobs = jobs }, rw e refl, inv, λ i h. cc)
    | inr e ↦
        let inv' = grant-LaneInv j k jobs inv f in
        (
          some j.id,
          grant timing lease token db j jobs,
          rw
              (
                e,
                valid,
                LaneInv-review_keys db.checkouts (grant timing lease token db j jobs).jobs
                    j.situation_id inv',
              )
              refl,
          inv',
          λ i h.
              subst (λ z. Granted timing token lease z (grant timing lease token db j jobs))
                (some-injective j.id i h) (grant-Granted j k jobs f),
        )
  ]

  claim_transaction-Served :
      LaneInv db.checkouts db.jobs → Served (claim_transaction timing token db)
  unfolding claim_transaction Served
  claim_transaction-Served inv =
      let (r, e, f) = focus_total db.checkouts db.jobs inv in rw e (go r f)
    where
      go :
          (r : Option ReviewJob × List ReviewJob)
          → Focusing db.checkouts r
          → Served (elim r.0 [
            | none ↦ ok (none, record db { jobs = r.1 })
            | some j ↦ take_over timing token db j r.1
          ])
      go (none, js) f = (none, record db { jobs = js }, refl, f.inv, λ i h. cc)
      go (some j, js) f = let (k, g) = f.focused j refl in take_over-Served j k js f.inv g

-- From the lane's invariant, and with a valid lease duration, a claim never trips over a unique
-- index, so it never gives up as the loser of a race; it leaves the invariant (at most one focused
-- job, which is the only one that may run, under a checkout that is still held); and a job that it
-- returns is in the table as running, focused, under the new claim token and a lease of the full
-- length.
pub claim-LaneInv :
    (timing : Timing) (token : Uuid) (db : Db) (lease : Millis)
    → lease_duration_ms timing ≡ ok lease
    → LaneInv db.checkouts db.jobs
    → (id : Option Uuid) × (db' : Db) × (claim_transaction timing token db ≡ ok (id, db'))
      × (claim_next_review timing token db ≡ ok (id, db'))
      × LaneInv db'.checkouts db'.jobs
      × ((i : Uuid) → id ≡ some i → Granted timing token lease i db')
unfolding claim_next_review Served
claim-LaneInv timing token db lease valid inv =
    let (id, db', e, inv', g) = claim_transaction-Served timing token db lease valid inv in
    (id, db', e, rw (e, claim_next_review) refl, inv', g)
