-- ===== src/Worker/Steps/Untouched.antt =====
-- A write of steps touches no column of a job.
use situation_studio.Prelude.{◌≡◌, refl, ◌∙◌, Bool, ◌&&◌, not, List, [], ◌∷◌, arith, any, ◌==◌}
use situation_studio.Prelude.Rows.{count, update_many}
use situation_studio.Store.{ReviewJob, ReviewStep, Checkout, is_running, is_active}
use situation_studio.Worker.Lane.{checkout_active}
use situation_studio.Worker.Lane.Invariant.{is_misplaced, LaneInv}
use situation_studio.Worker.Steps.{Authority, is_held, update_steps}

-- `q` reads no step.
abbrev pub IgnoresSteps : (ReviewJob → Bool) → Type 0
IgnoresSteps q = (j : ReviewJob) (steps : List ReviewStep) → q (record j { steps = steps }) ≡ q j

module _ (q : ReviewJob → Bool) (ignores : IgnoresSteps q) (p : ReviewJob → ReviewStep → Bool)
    (f : ReviewStep → ReviewStep) where
  pub count-update_steps : (jobs : List ReviewJob) → count q (update_steps p f jobs) ≡ count q jobs
  unfolding count update_steps
  count-update_steps [] = refl
  count-update_steps (j ∷ js) =
      ground (arith, ignores j (update_many (p j) f j.steps), count-update_steps js)

  pub any-update_steps : (jobs : List ReviewJob) → any q (update_steps p f jobs) ≡ any q jobs
  unfolding update_steps
  any-update_steps [] = refl
  any-update_steps (j ∷ js) =
      ground (arith, ignores j (update_many (p j) f j.steps), any-update_steps js)

is_held-IgnoresSteps : (a : Authority) → IgnoresSteps (is_held a)
unfolding is_held
is_held-IgnoresSteps a j steps = refl

-- A worker keeps its authority through writes of steps.
pub held-update_steps :
    (a : Authority) (p : ReviewJob → ReviewStep → Bool) (f : ReviewStep → ReviewStep)
    (jobs : List ReviewJob)
    → any (is_held a) (update_steps p f jobs) ≡ any (is_held a) jobs
held-update_steps a = any-update_steps (is_held a) (is_held-IgnoresSteps a)

module _ (checkouts : List Checkout) (p : ReviewJob → ReviewStep → Bool)
    (f : ReviewStep → ReviewStep) where
  -- So does the lane its invariant.
  pub update_steps-LaneInv :
      (jobs : List ReviewJob) → LaneInv checkouts jobs → LaneInv checkouts (update_steps p f jobs)
  unfolding checkout_active
  update_steps-LaneInv jobs inv = record {
    distinct = λ k.
        ground (arith, inv.distinct k, count-update_steps (λ x. x.id == k) (λ j s. refl) p f jobs);
    single =
        ground (arith, inv.single, count-update_steps (λ x. x.lane_owner) (λ j s. refl) p f jobs);
    owned = ground (
      arith,
      inv.owned,
      any-update_steps (λ x. is_running x.state && not x.lane_owner) (λ j s. refl) p f jobs,
    );
    live =
        any-update_steps (λ x. is_running x.state && not (checkout_active checkouts x))
          (λ j s. refl) p f jobs
        ∙ inv.live;
    one_review = λ k. ground (
      arith,
      inv.one_review k,
      count-update_steps (λ x. is_active x.state && x.situation_id == k) (λ j s. refl) p f jobs,
    );
    rooted =
        any-update_steps (is_misplaced checkouts) (λ j s. unfold is_misplaced in refl) p f jobs
        ∙ inv.rooted;
    checkout_ids = inv.checkout_ids;
  }
