-- ===== src/Worker/Lane/Focusing.antt =====
-- A stale focused job loses the lane, and the next queued job takes it.
use situation_studio.Prelude.{
  ◌≡◌, refl, ◌∙◌, ◌⊎◌, inl, inr, true, false, ◌&&◌, not, Option, none, some, List, [], ◌∷◌, arith,
  ◌==◌, if◌then◌else◌, any, ==_self, Bool-cases, Option-cases,
}
use mathlib.Core.Path.{subst}
use mathlib.Core.Option.{some-injective}
use situation_studio.Prelude.Rows.{find_first_sound, find_first, any_of_find_first, count-zero}
use situation_studio.Prelude.Writes.{
  any_cleared, any-update_many, any-update_many_of, any-update_many_same, count-update_many-le-add,
  count-update_many_same,
}
use situation_studio.Prelude.Members.{In, In-update_many, find_first-In, In-fails, select-In}
use situation_studio.Prelude.Results.{ok}
use situation_studio.Store.{ReviewJob, Checkout, is_running, is_queued, is_active}
use situation_studio.Worker.Lane.{
  checkout_active, update_job, set_lane, vacate, focus, is_stale, is_before, earliest, next_queued,
}
use situation_studio.Worker.Lane.Invariant.{
  is_misplaced, LaneInv, Writes, write-LaneInv, has_lane, LaneInv-one_lane_owner,
}

-- After a stale focused job has lost the lane, nobody has it.
pub record Vacated (checkouts : List Checkout) (jobs : List ReviewJob)
    (r : Option ReviewJob × List ReviewJob) : Type 0 where
  pub inv : LaneInv checkouts r.1
  pub free : r.0 ≡ none → any has_lane r.1 ≡ false
  pub kept :
      (j : ReviewJob)
      → r.0 ≡ some j
      → (In j r.1) × (j.lane_owner ≡ true) × (is_stale checkouts j ≡ false)

clears :
    (checkouts : List Checkout) → Writes checkouts (λ x. not (is_running x.state)) (set_lane false)
clears checkouts = record {
  ids = λ x. refl;
  lanes = λ x. ground arith;
  owns = λ x. ground arith;
  lives = λ x h. unfold checkout_active in ground arith;
  actives = λ x. ground arith;
  situations = λ x. refl;
  checkouts_kept = λ x. refl;
}

module _ (checkouts : List Checkout) (jobs : List ReviewJob) (inv : LaneInv checkouts jobs) where
  stale_stopped :
      (j : ReviewJob) → In j jobs → is_stale checkouts j ≡ true → not (is_running j.state) ≡ true
  unfolding is_stale
  stale_stopped j m st = ground (
    arith,
    In-fails (λ x. is_running x.state && not (checkout_active checkouts x)) jobs j m inv.live,
  )

  vacate-Vacated : Vacated checkouts jobs (vacate checkouts jobs)
  unfolding vacate
  vacate-Vacated = elim (Option-cases (find_first has_lane jobs)) [
    | inl e ↦
        rw (e, vacate)
          (record {
            inv = inv;
            free = λ _. any_of_find_first has_lane jobs e;
            kept = λ j h. ground arith;
          })
    | inr (j, e) ↦ rw (e, vacate) (split j e (Bool-cases (is_stale checkouts j)))
  ]
    where
      split :
          (j : ReviewJob)
          → find_first has_lane jobs ≡ some j
          → (is_stale checkouts j ≡ true) ⊎ (is_stale checkouts j ≡ false)
          → Vacated checkouts jobs (
              if is_stale checkouts j
              then (none, update_job j.id (set_lane false) jobs)
              else (some j, jobs))
      split j e (inl st) = rw st (record {
        inv =
            write-LaneInv checkouts jobs inv j (λ x. not (is_running x.state))
              (find_first-In has_lane jobs j e)
              (stale_stopped j (find_first-In has_lane jobs j e) st) (set_lane false)
              (clears checkouts);
        free = λ _.
            unfold update_job in
            any_cleared has_lane (λ x. x.id == j.id) (set_lane false) (λ x. refl) jobs j e
              (==_self j.id) inv.single;
        kept = λ k h. ground arith;
      })
      split j e (inr st) = rw st (record {
        inv = inv;
        free = λ h. ground arith;
        kept = λ k h.
            let e' : find_first has_lane jobs ≡ some k = e ∙ h in
            (find_first-In has_lane jobs k e', find_first_sound has_lane jobs k e', ground arith);
      })

-- The selected row, as it was read, stands for a row that holds the lane and may be claimed.
pub record Focused (checkouts : List Checkout) (jobs : List ReviewJob) (j k : ReviewJob)
    : Type 0 where
  pub member : In k jobs
  pub ids : k.id ≡ j.id
  pub situations : k.situation_id ≡ j.situation_id
  pub lane : k.lane_owner ≡ true
  pub active : is_active k.state ≡ true
  pub held : checkout_active checkouts k ≡ true

pub record Focusing (checkouts : List Checkout) (r : Option ReviewJob × List ReviewJob)
    : Type 0 where
  pub inv : LaneInv checkouts r.1
  pub focused : (j : ReviewJob) → r.0 ≡ some j → (k : ReviewJob) × Focused checkouts r.1 j k

earliest-In : (jobs : List ReviewJob) (j : ReviewJob) → earliest jobs ≡ some j → In j jobs
unfolding earliest
earliest-In [] j h = ground arith
earliest-In (x ∷ xs) j h = elim (Option-cases (earliest xs)) [
  | inl e ↦ inl (ground arith)
  | inr (y, e) ↦ elim (Bool-cases (is_before y x)) [
    | inl b ↦ inr (earliest-In xs j (ground arith))
    | inr b ↦ inl (ground arith)
  ]
]

pub next_queued-In :
    (checkouts : List Checkout) (jobs : List ReviewJob) (j : ReviewJob)
    → next_queued checkouts jobs ≡ some j
    → In j jobs × ((is_queued j.state && checkout_active checkouts j) ≡ true)
unfolding next_queued
next_queued-In checkouts jobs j h =
    select-In (λ k. is_queued k.state && checkout_active checkouts k) jobs j (earliest-In _ j h)

-- A free lane goes to one job.
module _ (checkouts : List Checkout) (jobs : List ReviewJob) (inv : LaneInv checkouts jobs)
    (free : any has_lane jobs ≡ false) (j : ReviewJob) (m : In j jobs) where
  take_lane-LaneInv : LaneInv checkouts (update_job j.id (set_lane true) jobs)
  unfolding update_job checkout_active
  take_lane-LaneInv = record {
    distinct = λ k.
        rw
          (count-update_many_same (λ x. x.id == k) (λ x. x.id == j.id) (set_lane true) (λ x _. refl)
            jobs)
          (inv.distinct k);
    single = omega (
      arith,
      inv.distinct j.id,
      count-zero has_lane jobs free,
      count-update_many-le-add has_lane (λ x. x.id == j.id) (set_lane true) jobs,
    );
    owned =
        any-update_many (λ x. is_running x.state && not x.lane_owner) (λ x. x.id == j.id)
          (set_lane true) (λ x e. ground arith) jobs inv.owned;
    live =
        rw
          (any-update_many_same (λ x. is_running x.state && not (checkout_active checkouts x))
            (λ x. x.id == j.id) (set_lane true) (λ x e. refl) jobs)
          inv.live;
    one_review = λ k.
        rw
          (count-update_many_same (λ x. is_active x.state && x.situation_id == k)
            (λ x. x.id == j.id) (set_lane true) (λ x _. refl) jobs)
          (inv.one_review k);
    rooted =
        any-update_many_of (is_misplaced checkouts) (λ x. x.id == j.id) (set_lane true)
          (λ x e. unfold is_misplaced in λ h. h) jobs inv.rooted;
    checkout_ids = inv.checkout_ids;
  }

  take_lane-Focused :
      (is_queued j.state && checkout_active checkouts j) ≡ true
      → Focused checkouts (update_job j.id (set_lane true) jobs) j (set_lane true j)
  take_lane-Focused h = record {
    member =
        unfold update_job in
        In-update_many (λ x. x.id == j.id) (set_lane true) jobs j m (==_self j.id);
    ids = refl;
    situations = refl;
    lane = refl;
    active = ground arith;
    held = unfold checkout_active in ground arith;
  }

module _ (checkouts : List Checkout) (jobs : List ReviewJob) (inv : LaneInv checkouts jobs)
    (free : any has_lane jobs ≡ false) where
  focus_next :
      (r : Option ReviewJob × List ReviewJob) × (focus checkouts (none, jobs) ≡ ok r)
      × Focusing checkouts r
  unfolding focus
  focus_next = elim (Option-cases (next_queued checkouts jobs)) [
    | inl e ↦ ((none, jobs), rw (e, focus), record { inv = inv; focused = λ j h. ground arith })
    | inr (j, e) ↦
        let (m, q) = next_queued-In checkouts jobs j e in
        let inv' = take_lane-LaneInv checkouts jobs inv free j m in
        (
          (some j, update_job j.id (set_lane true) jobs),
          rw (e, focus, LaneInv-one_lane_owner checkouts _ inv') refl,
          record {
            inv = inv';
            focused = λ k h. (
              set_lane true j,
              subst
                  (λ z.
                    Focused checkouts (update_job j.id (set_lane true) jobs) z (set_lane true j))
                  (some-injective j k h) (take_lane-Focused checkouts jobs inv free j m q),
            );
          },
        )
  ]

-- A focused job that keeps the lane may be claimed.
module _ (checkouts : List Checkout) (jobs : List ReviewJob) (inv : LaneInv checkouts jobs) where
  pub focus_total :
      (r : Option ReviewJob × List ReviewJob) × (focus checkouts (vacate checkouts jobs) ≡ ok r)
      × Focusing checkouts r
  focus_total = go (vacate checkouts jobs) (vacate-Vacated checkouts jobs inv)
    where
      go :
          (v : Option ReviewJob × List ReviewJob)
          → Vacated checkouts jobs v
          → (r : Option ReviewJob × List ReviewJob) × (focus checkouts v ≡ ok r)
            × Focusing checkouts r
      go (none, js) v = focus_next checkouts js v.inv (v.free refl)
      go (some j, js) v = (
        (some j, js),
        unfold focus in refl,
        record { inv = v.inv; focused = λ k h. (k, kept k (v.kept k h)) },
      )
        where
          kept :
              (k : ReviewJob)
              → (In k js) × (k.lane_owner ≡ true) × (is_stale checkouts k ≡ false)
              → Focused checkouts js k k
          kept k (m, l, st) = record {
            member = m;
            ids = refl;
            situations = refl;
            lane = l;
            active = unfold is_stale in ground arith;
            held = unfold is_stale in ground arith;
          }
