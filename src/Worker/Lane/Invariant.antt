-- ===== src/Worker/Lane/Invariant.antt =====
-- The invariant of the review lane, the writes that keep it, and the unique indexes that it implies.
use situation_studio.Prelude.{
  ◌≤◌, ◌≡◌, Bool, true, false, ◌&&◌, not, List, arith, Uuid, ◌==◌, any, ==_self,
}
use situation_studio.Prelude.Rows.{count-update_many-le, update_many, count, count-zero}
use situation_studio.Prelude.Writes.{any-update_many, any-update_many_of, count-update_many-le_of}
use situation_studio.Prelude.Members.{In, count_split, unique_row, update_many_restrict}
use situation_studio.Store.{ReviewJob, Checkout, is_running, is_active}
use situation_studio.Store.Keys.{one_lane_owner, review_keys}
use situation_studio.Worker.Lane.{checkout_active, update_job}

-- The checkout of a job is one of its situation.
unfoldable pub is_misplaced : List Checkout → ReviewJob → Bool
is_misplaced checkouts j =
    any (λ c. c.id == j.checkout_id && not (c.situation_id == j.situation_id)) checkouts

-- One focused job; a running job is the focused one, under a checkout that is still held; one
-- active review for each situation; distinct ids; and a job has the situation of its checkout.
pub record LaneInv (checkouts : List Checkout) (jobs : List ReviewJob) : Type 0 where
  pub distinct : (id : Uuid) → count (λ j. j.id == id) jobs ≤ 1
  pub single : count (λ j. j.lane_owner) jobs ≤ 1
  pub owned : any (λ j. is_running j.state && not j.lane_owner) jobs ≡ false
  pub live : any (λ j. is_running j.state && not (checkout_active checkouts j)) jobs ≡ false
  pub one_review : (id : Uuid) → count (λ j. is_active j.state && j.situation_id == id) jobs ≤ 1
  pub rooted : any (is_misplaced checkouts) jobs ≡ false
  pub checkout_ids : (id : Uuid) → count (λ c. c.id == id) checkouts ≤ 1

module _ (checkouts : List Checkout) (jobs : List ReviewJob) (inv : LaneInv checkouts jobs) where
  -- A job with the id of `j` is like `j`.
  like :
      (j : ReviewJob) (r : ReviewJob → Bool)
      → In j jobs
      → r j ≡ false
      → any (λ k. k.id == j.id && r k) jobs ≡ false
  like j r m h = unique_row (λ k. k.id == j.id) r jobs j m (==_self j.id) (inv.distinct j.id) h

-- A write of the job of `j` that all rows like it may take.
pub record Writes (checkouts : List Checkout) (s : ReviewJob → Bool) (f : ReviewJob → ReviewJob)
    : Type 0 where
  pub ids : (x : ReviewJob) → (f x).id ≡ x.id
  pub lanes : (x : ReviewJob) → s x ≡ true → (f x).lane_owner ≡ true → x.lane_owner ≡ true
  pub owns : (x : ReviewJob) → s x ≡ true → (is_running (f x).state && not (f x).lane_owner) ≡ false
  pub lives :
      (x : ReviewJob)
      → s x ≡ true
      → (is_running (f x).state && not (checkout_active checkouts (f x))) ≡ false
  pub actives :
      (x : ReviewJob) → s x ≡ true → is_active (f x).state ≡ true → is_active x.state ≡ true
  pub situations : (x : ReviewJob) → (f x).situation_id ≡ x.situation_id
  pub checkouts_kept : (x : ReviewJob) → (f x).checkout_id ≡ x.checkout_id

module _ (checkouts : List Checkout) (jobs : List ReviewJob) (inv : LaneInv checkouts jobs)
    (j : ReviewJob) (s : ReviewJob → Bool) (m : In j jobs) (h : s j ≡ true)
    (f : ReviewJob → ReviewJob) (w : Writes checkouts s f) where
  restricted : update_job j.id f jobs ≡ update_many (λ x. x.id == j.id && s x) f jobs
  unfolding update_job
  restricted =
      update_many_restrict (λ x. x.id == j.id) s f jobs
        (like checkouts jobs inv j (λ x. not (s x)) m (ground arith))

  abbrev key : ReviewJob → Bool
  key x = x.id == j.id && s x

  pub write-LaneInv : LaneInv checkouts (update_job j.id f jobs)
  write-LaneInv = rw restricted (record {
    distinct = λ k. omega (
      arith,
      inv.distinct k,
      count-update_many-le (λ x. x.id == k) key f (λ x. ground (arith, w.ids x)) jobs,
    );
    single = omega (
      arith,
      inv.single,
      count-update_many-le_of (λ x. x.lane_owner) key f (λ x. ground (arith, w.lanes x)) jobs,
    );
    owned =
        any-update_many (λ x. is_running x.state && not x.lane_owner) key f
          (λ x e. w.owns x (ground arith)) jobs inv.owned;
    live =
        any-update_many (λ x. is_running x.state && not (checkout_active checkouts x)) key f
          (λ x e. w.lives x (ground arith)) jobs inv.live;
    one_review = λ k. omega (
      arith,
      inv.one_review k,
      count-update_many-le_of (λ x. is_active x.state && x.situation_id == k) key f
          (λ x. ground (arith, w.actives x, w.situations x)) jobs,
    );
    rooted =
        any-update_many_of (is_misplaced checkouts) key f
          (λ x e. unfold is_misplaced in rw (w.situations x, w.checkouts_kept x) (λ h. h)) jobs
          inv.rooted;
    checkout_ids = inv.checkout_ids;
  })

abbrev pub has_lane : ReviewJob → Bool
has_lane x = x.lane_owner

pub LaneInv-one_lane_owner :
    (checkouts : List Checkout) (jobs : List ReviewJob)
    → LaneInv checkouts jobs
    → one_lane_owner jobs ≡ true
unfolding one_lane_owner
LaneInv-one_lane_owner checkouts jobs inv = ground (arith, inv.single)

pub LaneInv-review_keys :
    (checkouts : List Checkout) (jobs : List ReviewJob) (id : Uuid)
    → LaneInv checkouts jobs
    → review_keys id jobs ≡ true
unfolding review_keys
LaneInv-review_keys checkouts jobs id inv = ground (
  arith,
  inv.single,
  inv.one_review id,
  count_split (λ j. is_running j.state) has_lane jobs,
  count-zero (λ j. is_running j.state && not j.lane_owner) jobs inv.owned,
)
