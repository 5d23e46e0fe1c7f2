-- ===== src/Worker/Keeping.antt =====
-- Writes of jobs that keep the invariant of the lane, whatever rows they name.
use situation_studio.Prelude.{◌≡◌, refl, Bool, true, ◌&&◌, not, List, arith, Uuid, ◌==◌}
use situation_studio.Prelude.Rows.{update_many}
use situation_studio.Prelude.Writes.{count-update_many-le_of, any-update_many_of}
use situation_studio.Prelude.Rows.{count-update_many-le}
use situation_studio.Store.{ReviewJob, Checkout, is_running, is_active}
use situation_studio.Worker.Lane.{checkout_active, update_job}
use situation_studio.Worker.Lane.Invariant.{is_misplaced, LaneInv}

-- A write of jobs that names them by its test alone: it moves no id, situation, checkout or fence,
-- gives nobody the lane, and leaves no job running without it.
pub record Harmless (p : ReviewJob → Bool) (f : ReviewJob → ReviewJob) : Type 0 where
  pub ids : (x : ReviewJob) → (f x).id ≡ x.id
  pub situations : (x : ReviewJob) → (f x).situation_id ≡ x.situation_id
  pub checkouts : (x : ReviewJob) → (f x).checkout_id ≡ x.checkout_id
  pub fences : (x : ReviewJob) → (f x).checkout_fence ≡ x.checkout_fence
  pub lanes : (x : ReviewJob) → (f x).lane_owner ≡ true → x.lane_owner ≡ true
  pub keeps :
      (x : ReviewJob)
      → p x ≡ true
      → is_running (f x).state ≡ true
      → (is_running x.state ≡ true) × ((f x).lane_owner ≡ x.lane_owner)
  pub actives :
      (x : ReviewJob) → p x ≡ true → is_active (f x).state ≡ true → is_active x.state ≡ true

module _ (checkouts : List Checkout) (p : ReviewJob → Bool) (f : ReviewJob → ReviewJob)
    (h : Harmless p f) where
  same_checkout : (x : ReviewJob) → checkout_active checkouts (f x) ≡ checkout_active checkouts x
  unfolding checkout_active
  same_checkout x = rw (h.checkouts x, h.fences x) refl

  pub harmless-LaneInv :
      (jobs : List ReviewJob) → LaneInv checkouts jobs → LaneInv checkouts (update_many p f jobs)
  harmless-LaneInv jobs inv = record {
    distinct = λ k. omega (
      arith,
      inv.distinct k,
      count-update_many-le (λ x. x.id == k) p f (λ x. ground (arith, h.ids x)) jobs,
    );
    single =
        omega
          (arith, inv.single, count-update_many-le (λ x. x.lane_owner) p f (λ x. h.lanes x) jobs);
    owned =
        any-update_many_of (λ x. is_running x.state && not x.lane_owner) p f
          (λ x. ground (arith, h.keeps x)) jobs inv.owned;
    live =
        any-update_many_of (λ x. is_running x.state && not (checkout_active checkouts x)) p f
          (λ x. ground (arith, h.keeps x, same_checkout x)) jobs inv.live;
    one_review = λ k. omega (
      arith,
      inv.one_review k,
      count-update_many-le_of (λ x. is_active x.state && x.situation_id == k) p f
          (λ x. ground (arith, h.situations x, h.actives x)) jobs,
    );
    rooted =
        any-update_many_of (is_misplaced checkouts) p f
          (λ x e. unfold is_misplaced in rw (h.situations x, h.checkouts x) (λ t. t)) jobs
          inv.rooted;
    checkout_ids = inv.checkout_ids;
  }

module _ (checkouts : List Checkout) (id : Uuid) (f : ReviewJob → ReviewJob)
    (h : Harmless (λ x. x.id == id) f) where
  pub update_job-LaneInv :
      (jobs : List ReviewJob) → LaneInv checkouts jobs → LaneInv checkouts (update_job id f jobs)
  unfolding update_job
  update_job-LaneInv = harmless-LaneInv checkouts (λ x. x.id == id) f h
