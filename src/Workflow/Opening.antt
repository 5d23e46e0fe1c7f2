-- ===== src/Workflow/Opening.antt =====
-- A checkout that is opened, or given another draft, leaves the lane sound.
use situation_studio.Prelude.{
  ℕ, ◌≡◌, ◌∙◌, refl, inl, inr, Bool, true, false, ◌&&◌, ◌||◌, not, ◌==◌, Option, none, some, List,
  [], ◌∷◌, ◌++◌, Uuid, Millis, arith, any, is_none, Option-cases, Bool-cases,
}
use situation_studio.Prelude.Rows.{find_first, update_many, count-zero}
use situation_studio.Prelude.Writes.{
  any-snoc, count-snoc, any_mono, any_cover, any-update_many_same, count-update_many_same,
}
use situation_studio.Prelude.Results.{◌>>=◌, Result, ok, err, Result-cases, Always}
use situation_studio.Store.{
  draft_reset_from_production, Db, Draft, Revision, Checkout, Situation, ReviewJob, is_running,
}
use situation_studio.Worker.Lane.{checkout_active}
use situation_studio.Worker.Lane.Invariant.{LaneInv, is_misplaced}
use situation_studio.Workflow.Failure.{WorkflowError, checked_out_by}
use situation_studio.Workflow.Guards.{
  find_held, assert_no_publication_recovery, assert_no_active_publication,
}
use situation_studio.Workflow.Revision.{Save, create_revision}
use situation_studio.Workflow.Checkout.{
  Production, resume_draft, active_draft, new_checkout, one_open_checkout, open_checkout,
  checkout_transaction, checkout_situation, lost_checkout, create_draft_from_production,
  start_over_from_production, archive_draft,
}
use situation_studio.Workflow.Checkout.Ownership.{
  Elsewhere, create_draft-Elsewhere, resume_draft-Elsewhere, create_revision-Elsewhere,
}
use situation_studio.Workflow.Keeping.{Sound}

module _ (checkouts : List Checkout) (jobs : List ReviewJob) (c : Checkout)
    (fresh : any (λ x. x.id == c.id) checkouts ≡ false)
    (unused : any (λ j. j.checkout_id == c.id) jobs ≡ false) where
  more_active :
      (x : ReviewJob)
      → checkout_active checkouts x ≡ true
      → checkout_active (checkouts ++ c ∷ []) x ≡ true
  unfolding checkout_active
  more_active x h =
      any-snoc (λ d. d.id == x.checkout_id && d.fence == x.checkout_fence && is_none d.released_at)
        c checkouts
      ∙ ground (arith, h)

  placed :
      (x : ReviewJob)
      → is_misplaced (checkouts ++ c ∷ []) x ≡ true
      → (is_misplaced checkouts x || x.checkout_id == c.id) ≡ true
  unfolding is_misplaced
  placed x h = ground (
    arith,
    h,
    any-snoc (λ d. d.id == x.checkout_id && not (d.situation_id == x.situation_id)) c checkouts,
  )

  added-LaneInv : LaneInv checkouts jobs → LaneInv (checkouts ++ c ∷ []) jobs
  added-LaneInv inv = record {
    distinct = inv.distinct;
    single = inv.single;
    owned = inv.owned;
    live =
        any_mono (λ x. is_running x.state && not (checkout_active (checkouts ++ c ∷ []) x))
          (λ x. is_running x.state && not (checkout_active checkouts x))
          (λ x h. ground (arith, more_active x)) jobs inv.live;
    one_review = inv.one_review;
    rooted =
        any_cover (is_misplaced checkouts) (λ j. j.checkout_id == c.id)
          (is_misplaced (checkouts ++ c ∷ [])) placed jobs inv.rooted unused;
    checkout_ids = λ k. ground (
      arith,
      count-snoc (λ d. d.id == k) c checkouts,
      inv.checkout_ids k,
      count-zero (λ x. x.id == c.id) checkouts fresh,
    );
  }

module _ (checkouts : List Checkout) (jobs : List ReviewJob) (p : Checkout → Bool)
    (f : Checkout → Checkout) (ids : (c : Checkout) → (f c).id ≡ c.id)
    (situations : (c : Checkout) → (f c).situation_id ≡ c.situation_id)
    (fences : (c : Checkout) → (f c).fence ≡ c.fence)
    (releases : (c : Checkout) → (f c).released_at ≡ c.released_at) where
  as_active :
      (x : ReviewJob) → checkout_active (update_many p f checkouts) x ≡ checkout_active checkouts x
  unfolding checkout_active
  as_active x =
      any-update_many_same
        (λ c. c.id == x.checkout_id && c.fence == x.checkout_fence && is_none c.released_at) p f
        (λ c e. rw (ids c, fences c, releases c) refl) checkouts

  as_placed :
      (x : ReviewJob) → is_misplaced (update_many p f checkouts) x ≡ is_misplaced checkouts x
  unfolding is_misplaced
  as_placed x =
      any-update_many_same (λ c. c.id == x.checkout_id && not (c.situation_id == x.situation_id)) p
        f (λ c e. rw (ids c, situations c) refl) checkouts

  redrafted-LaneInv : LaneInv checkouts jobs → LaneInv (update_many p f checkouts) jobs
  redrafted-LaneInv inv = record {
    distinct = inv.distinct;
    single = inv.single;
    owned = inv.owned;
    live =
        any_mono (λ x. is_running x.state && not (checkout_active (update_many p f checkouts) x))
          (λ x. is_running x.state && not (checkout_active checkouts x))
          (λ x h. ground (arith, as_active x)) jobs inv.live;
    one_review = inv.one_review;
    rooted =
        any_mono (is_misplaced (update_many p f checkouts)) (is_misplaced checkouts)
          (λ x h. ground (arith, as_placed x)) jobs inv.rooted;
    checkout_ids = λ k.
        rw (count-update_many_same (λ c. c.id == k) p f (λ c e. rw (ids c) refl) checkouts)
          (inv.checkout_ids k);
  }

Elsewhere-LaneInv :
    (db db' : Db) → Elsewhere db db' → LaneInv db.checkouts db.jobs → LaneInv db'.checkouts db'.jobs
Elsewhere-LaneInv db db' (c, j) inv = rw (c, j) inv

module _ (db : Db) (inv : LaneInv db.checkouts db.jobs) where
  pub create_revision-LaneInv :
      (now : Millis) (id : Uuid) (input : Save) → Always Sound (create_revision now id input db)
  create_revision-LaneInv now id input =
      go (create_revision now id input db) (create_revision-Elsewhere now id input db)
    where
      go :
          (r : Result WorkflowError (Revision × Db))
          → Always (λ (x : Revision × Db). Elsewhere db x.1) r
          → Always Sound r
      go (err x) h = tt
      go (ok (a, db')) h = Elsewhere-LaneInv db db' h inv

module _ (out : Production) (actor_id : Uuid) (db : Db) (inv : LaneInv db.checkouts db.jobs)
    (fresh : any (λ x. x.id == out.checkout_id) db.checkouts ≡ false)
    (unused : any (λ j. j.checkout_id == out.checkout_id) db.jobs ≡ false) where
  opened :
      (s : Situation) (draft_id : Uuid) (db1 : Db)
      → Elsewhere db db1
      → Always Sound (open_checkout out s actor_id draft_id db1)
  unfolding open_checkout new_checkout
  opened s draft_id db1 (c, j) =
      elim (Bool-cases
        (one_open_checkout s.id (db1.checkouts ++ new_checkout out s actor_id draft_id ∷ []))) [
          | inr f ↦ rw (f) tt
          | inl f ↦ rw (f) (
              rw (c, j)
                (added-LaneInv db.checkouts db.jobs (new_checkout out s actor_id draft_id) fresh
                  unused inv))
        ]

  resumed :
      (s : Situation) (o : Option Draft)
      → Always Sound
          (resume_draft out s actor_id db o >>= λ r. open_checkout out s actor_id r.0 r.1)
  resumed s o = go (resume_draft out s actor_id db o) (resume_draft-Elsewhere out s actor_id db o)
    where
      go :
          (r : Result WorkflowError (Uuid × Db))
          → Always (λ (x : Uuid × Db). Elsewhere db x.1) r
          → Always Sound (r >>= λ x. open_checkout out s actor_id x.0 x.1)
      go (err x) h = tt
      go (ok (draft_id, db1)) h = opened s draft_id db1 h

  pub checkout_situation-LaneInv :
      (situation_id : Uuid) → Always Sound (checkout_situation out situation_id actor_id db)
  unfolding checkout_situation
  checkout_situation-LaneInv situation_id =
      raced (checkout_transaction out situation_id actor_id db) committed
    where
      raced :
          (r : Result WorkflowError (Checkout × Db))
          → Always Sound r
          → Always Sound (lost_checkout r)
      raced (ok x) h = h
      raced (err x) h = tt

      free_or_held :
          (s : Situation) (o : Option Checkout)
          → Always Sound (elim o [
            | some c ↦ err (checked_out_by c.holder_id)
            | none ↦ resume_draft out s actor_id db (active_draft s.id db.drafts) >>= λ r.
                open_checkout out s actor_id r.0 r.1
          ])
      free_or_held s (some c) = tt
      free_or_held s none = resumed s (active_draft s.id db.drafts)

      committed : Always Sound (checkout_transaction out situation_id actor_id db)
      committed =
          unfold checkout_transaction in
          elim (Result-cases (assert_no_publication_recovery db)) [
            | inr (x, p) ↦ rw (p) tt
            | inl (u, p) ↦
                rw (p)
                  (elim (Option-cases
                    (find_first (λ (x : Situation). x.id == situation_id) db.situations)) [
                      | inl e ↦ rw (e) tt
                      | inr (s, e) ↦ rw (e) (
                          free_or_held s (
                            find_first
                              (λ (c : Checkout). c.situation_id == s.id && is_none c.released_at)
                              db.checkouts))
                    ])
          ]

module _ (out : Production) (actor_id checkout_id : Uuid) (fence : ℕ) (db : Db)
    (inv : LaneInv db.checkouts db.jobs) where
  pub start_over-LaneInv :
      Always Sound (start_over_from_production out actor_id checkout_id fence db)
  unfolding start_over_from_production
  start_over-LaneInv = elim (Option-cases (find_held checkout_id actor_id fence db)) [
    | inl e ↦ rw (e) tt
    | inr (c, e) ↦
        rw (e)
          (elim (Option-cases
            (find_first (λ (x : Situation). x.id == c.situation_id) db.situations)) [
              | inl f ↦ rw (f) tt
              | inr (s, f) ↦
                  rw (f) (elim (Result-cases (assert_no_active_publication c.situation_id db)) [
                    | inr (x, p) ↦ rw (p) tt
                    | inl (u, p) ↦ rw (p) (
                        go c s (create_draft_from_production out s actor_id (archived c))
                          (create_draft-Elsewhere out s actor_id (archived c)))
                  ])
            ])
  ]
    where
      archived : Checkout → Db
      archived c = record db { drafts = archive_draft out.now c.draft_id db.drafts }

      go :
          (c : Checkout) (s : Situation) (r : Result WorkflowError (Draft × Db))
          → Always (λ (x : Draft × Db). Elsewhere db x.1) r
          → Always Sound (
              r >>= λ x. ok (
                x.0,
                record x.1 {
                  checkouts =
                      update_many
                        (λ k. k.id == c.id)
                        (λ k. record k { draft_id = x.0.id })
                        x.1.checkouts;
                  audit =
                      x.1.audit
                      ++ record {
                        actor_id = some actor_id;
                        action =
                            draft_reset_from_production c.draft_id x.0.id s.production_release_id;
                        subject_id = c.situation_id;
                      }
                        ∷ [];
                },
              ))
      go c s (err x) h = tt
      go c s (ok (next, db')) h =
          redrafted-LaneInv db'.checkouts db'.jobs (λ k. k.id == c.id)
            (λ k. record k { draft_id = next.id }) (λ k. refl) (λ k. refl) (λ k. refl) (λ k. refl)
            (Elsewhere-LaneInv db db' h inv)
