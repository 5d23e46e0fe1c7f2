-- ===== src/Workflow/Checkout/Ownership.antt =====
-- Who holds a situation after a checkout, and under which fence.
use situation_studio.Prelude.{
  ℕ, ◌+◌, ◌≡◌, ◌∙◌, refl, inl, inr, Bool, false, ◌&&◌, not, ◌==◌, Option, none, some, List, [], ◌∷◌,
  ◌++◌, Uuid, Millis, ltb, arith, any, is_none, same, if◌then◌else◌, Option-cases, Bool-cases,
}
use situation_studio.Prelude.Rows.{find_first, count, any_of_find_first, count-zero}
use situation_studio.Prelude.Writes.{any-snoc, count-snoc, any_mono}
use situation_studio.Prelude.Results.{◌>>=◌, Result, ok, err, Result-cases, Always}
use situation_studio.Store.{Db, Draft, Revision, Checkout, Situation}
use situation_studio.Workflow.Failure.{WorkflowError, checked_out_by, row_missing}
use situation_studio.Workflow.Guards.{or_throw, latest_revision, assert_no_publication_recovery}
use situation_studio.Workflow.Revision.{
  Save, Content, create_revision, add_revision, is_unmoved, supersede, is_parent,
}
use situation_studio.Workflow.Checkout.{
  Production, new_draft, max_lineage, one_active_draft, baseline, first_save,
  create_draft_from_production, resume_draft, active_draft, differs_from_base, new_checkout,
  one_open_checkout, open_checkout, checkout_transaction, checkout_situation, lost_checkout,
}

-- What writes drafts and revisions leaves the rest.
abbrev pub Elsewhere : Db → Db → Type 0
Elsewhere db db' = (db'.checkouts ≡ db.checkouts) × (db'.jobs ≡ db.jobs)

module _ (now : Millis) (id : Uuid) (input : Save) (db : Db) where
  added :
      (c : Content) (d : Draft) (previous : Option Revision)
      → Always (λ (r : Revision × Db). Elsewhere db r.1) (add_revision now id input c d previous db)
  unfolding add_revision
  added c d none = elim (Bool-cases (count (is_unmoved d) db.drafts == 1)) [
    | inr e ↦ rw (e) tt
    | inl e ↦ rw (e) (unfold supersede in (refl, refl))
  ]
  added c d (some p) = elim (Bool-cases (count (is_unmoved d) db.drafts == 1)) [
    | inr e ↦ rw (e) tt
    | inl e ↦ rw (e) (unfold supersede in (refl, refl))
  ]

  revised :
      (d : Draft) (o : Option Revision)
      → find_first (λ (x : Draft). x.id == input.draft_id) db.drafts ≡ some d
      → latest_revision d.id db.revisions ≡ o
      → Always (λ (r : Revision × Db). Elsewhere db r.1) (create_revision now id input db)
  unfolding create_revision
  revised d o f e = elim (Result-cases input.content) [
    | inr (x, h) ↦ rw (f, e, h) tt
    | inl (c, h) ↦
        rw (f, e, h)
          (elim (Bool-cases (is_parent input.expected_parent o)) [
            | inr k ↦ rw (k) tt
            | inl k ↦ rw (k) (chosen o c)
          ])
  ]
    where
      chosen :
          (o : Option Revision) (c : Content)
          → Always
              (λ (r : Revision × Db). Elsewhere db r.1)
              (elim o [
                | some r ↦
                    if r.bundle_hash == c.bundle_hash
                    then ok (r, db)
                    else add_revision now id input c d (some r) db
                | none ↦ add_revision now id input c d none db
              ])
      chosen none c = added c d none
      chosen (some r) c = elim (Bool-cases (r.bundle_hash == c.bundle_hash)) [
        | inl t ↦ rw (t) (refl, refl)
        | inr t ↦ rw (t) (added c d (some r))
      ]

  pub create_revision-Elsewhere :
      Always (λ (r : Revision × Db). Elsewhere db r.1) (create_revision now id input db)
  create_revision-Elsewhere =
      elim (Option-cases (find_first (λ (x : Draft). x.id == input.draft_id) db.drafts)) [
        | inl e ↦ unfold create_revision in rw (e) tt
        | inr (d, e) ↦ revised d (latest_revision d.id db.revisions) e refl
      ]

module _ (out : Production) (s : Situation) (actor_id : Uuid) (db : Db) where
  abbrev first_drafts : List Draft
  first_drafts =
      db.drafts ++ new_draft out s (out.base_version s.id) (max_lineage s.id db.drafts) ∷ []

  pub create_draft-Elsewhere :
      Always (λ (r : Draft × Db). Elsewhere db r.1) (create_draft_from_production out s actor_id db)
  unfolding create_draft_from_production
  create_draft-Elsewhere = elim (Bool-cases (one_active_draft s.id first_drafts)) [
    | inr e ↦ rw (e) tt
    | inl e ↦ rw (e) (elim (Result-cases (baseline out s (out.base_version s.id))) [
      | inr (x, f) ↦ rw (f) tt
      | inl (c, f) ↦ rw (f) (
          drafted c
            (create_revision out.now out.revision_id
              (first_save out actor_id (out.base_version s.id) c)
              (record db { drafts = first_drafts }))
            (create_revision-Elsewhere out.now out.revision_id
              (first_save out actor_id (out.base_version s.id) c)
              (record db { drafts = first_drafts })))
    ])
  ]
    where
      drafted :
          (c : Content) (r : Result WorkflowError (Revision × Db))
          → Always (λ (x : Revision × Db). Elsewhere db x.1) r
          → Always
              (λ (x : Draft × Db). Elsewhere db x.1)
              (r >>= λ x.
                or_throw (find_first (λ (d : Draft). d.id == out.draft_id) x.1.drafts) row_missing
                >>= λ d. ok (d, x.1))
      drafted c (err x) h = tt
      drafted c (ok (r, db')) h =
          elim (Option-cases (find_first (λ (d : Draft). d.id == out.draft_id) db'.drafts)) [
            | inl e ↦ rw (e) tt
            | inr (d, e) ↦ rw (e) h
          ]

  pub resume_draft-Elsewhere :
      (o : Option Draft)
      → Always (λ (r : Uuid × Db). Elsewhere db r.1) (resume_draft out s actor_id db o)
  unfolding resume_draft
  resume_draft-Elsewhere none =
      resumed (create_draft_from_production out s actor_id db) create_draft-Elsewhere
    where
      resumed :
          (r : Result WorkflowError (Draft × Db))
          → Always (λ (x : Draft × Db). Elsewhere db x.1) r
          → Always (λ (x : Uuid × Db). Elsewhere db x.1) (r >>= λ x. ok (x.0.id, x.1))
      resumed (err x) h = tt
      resumed (ok (d, db')) h = h
  resume_draft-Elsewhere (some d) = elim (Bool-cases (differs_from_base s d.base_bundle_hash)) [
    | inl e ↦ rw (e) (refl, refl)
    | inr e ↦ rw (e) (elim (Bool-cases (same s.production_release_id d.base_release_id)) [
      | inl f ↦ rw (f) (refl, refl)
      | inr f ↦ rw (f) (refl, refl)
    ])
  ]

-- An open checkout of the situation.
abbrev pub is_open : Uuid → Checkout → Bool
is_open id c = c.situation_id == id && is_none c.released_at

abbrev pub is_past : Uuid → ℕ → Checkout → Bool
is_past id fence c = c.situation_id == id && ltb fence c.fence

module _ (out : Production) (s : Situation) (actor_id : Uuid) (db : Db)
    (closed : any (is_open s.id) db.checkouts ≡ false)
    (behind : any (is_past s.id s.fence) db.checkouts ≡ false) where
  -- What a checkout leaves.
  abbrev Owned : Checkout × Db → Type 0
  Owned (c, db') =
      (c.holder_id ≡ actor_id)
      × (c.situation_id ≡ s.id)
      × (any (is_past s.id c.fence) db'.checkouts ≡ false)
      × (count (is_open s.id) db'.checkouts ≡ 1)
      × (any (λ x. is_open s.id x && not (x.holder_id == actor_id && x.fence == c.fence))
            db'.checkouts
          ≡ false)

  opened :
      (draft_id : Uuid) (db1 : Db)
      → db1.checkouts ≡ db.checkouts
      → Always Owned (open_checkout out s actor_id draft_id db1)
  unfolding open_checkout new_checkout
  opened draft_id db1 e =
      elim (Bool-cases
        (one_open_checkout s.id (db1.checkouts ++ new_checkout out s actor_id draft_id ∷ []))) [
          | inr f ↦ rw (f) tt
          | inl f ↦ rw (f) (
            refl,
            refl,
            any-snoc (is_past s.id (s.fence + 1)) (new_checkout out s actor_id draft_id)
                  db1.checkouts
                ∙ rw (e) (
                    ground (
                      arith,
                      any_mono (is_past s.id (s.fence + 1)) (is_past s.id s.fence)
                          (λ x h. ground arith) db.checkouts behind,
                    )),
            count-snoc (is_open s.id) (new_checkout out s actor_id draft_id) db1.checkouts
                ∙ rw (e) (ground (arith, count-zero (is_open s.id) db.checkouts closed)),
            any-snoc
                  (λ x. is_open s.id x && not (x.holder_id == actor_id && x.fence == s.fence + 1))
                  (new_checkout out s actor_id draft_id) db1.checkouts
                ∙ rw (e) (
                    ground (
                      arith,
                      any_mono
                          (λ x.
                            is_open s.id x
                            && not (x.holder_id == actor_id && x.fence == s.fence + 1))
                          (is_open s.id) (λ x h. ground arith) db.checkouts closed,
                    )),
          )
        ]

  transacted :
      (o : Option Draft)
      → Always Owned
          (resume_draft out s actor_id db o >>= λ r. open_checkout out s actor_id r.0 r.1)
  transacted o = go (resume_draft out s actor_id db o) (resume_draft-Elsewhere out s actor_id db o)
    where
      go :
          (r : Result WorkflowError (Uuid × Db))
          → Always (λ (x : Uuid × Db). Elsewhere db x.1) r
          → Always Owned (r >>= λ x. open_checkout out s actor_id x.0 x.1)
      go (err x) h = tt
      go (ok (draft_id, db1)) h = opened draft_id db1 h.0

module _ (out : Production) (s : Situation) (situation_id actor_id : Uuid) (db : Db)
    (found : find_first (λ (x : Situation). x.id == situation_id) db.situations ≡ some s)
    (behind : any (is_past s.id s.fence) db.checkouts ≡ false) where
  abbrev Outcome : Result WorkflowError (Checkout × Db) → Type 0
  Outcome = Always (λ (r : Checkout × Db).
      (r.0.holder_id ≡ actor_id)
      × (r.0.situation_id ≡ s.id)
      × (any (is_past s.id r.0.fence) r.1.checkouts ≡ false)
      × (count (is_open s.id) r.1.checkouts ≡ 1)
      × (any (λ x. is_open s.id x && not (x.holder_id == actor_id && x.fence == r.0.fence))
            r.1.checkouts
          ≡ false))

  committed : Outcome (checkout_transaction out situation_id actor_id db)
  unfolding checkout_transaction
  committed = elim (Result-cases (assert_no_publication_recovery db)) [
    | inr (x, p) ↦ rw (p) tt
    | inl (u, p) ↦ rw (p, found) (free_or_held (find_first (is_open s.id) db.checkouts) refl)
  ]
    where
      free_or_held :
          (o : Option Checkout)
          → find_first (is_open s.id) db.checkouts ≡ o
          → Outcome (elim o [
            | some c ↦ err (checked_out_by c.holder_id)
            | none ↦ resume_draft out s actor_id db (active_draft s.id db.drafts) >>= λ r.
                open_checkout out s actor_id r.0 r.1
          ])
      free_or_held (some c) e = tt
      free_or_held none e =
          transacted out s actor_id db (any_of_find_first (is_open s.id) db.checkouts e) behind
            (active_draft s.id db.drafts)

  mapped : (r : Result WorkflowError (Checkout × Db)) → Outcome r → Outcome (lost_checkout r)
  mapped (ok x) h = h
  mapped (err x) h = tt

-- A checkout that goes through gives the situation to the editor alone: one checkout of it is open, it
-- is the editor's, and no checkout of the situation, released or not, has a later fence than the new one,
-- provided that none had a later fence than the situation before.
pub checkout_owns :
    (out : Production) (s : Situation) (situation_id actor_id : Uuid) (db : Db)
    → find_first (λ (x : Situation). x.id == situation_id) db.situations ≡ some s
    → any (is_past s.id s.fence) db.checkouts ≡ false
    → Always
        (λ (r : Checkout × Db).
          (r.0.holder_id ≡ actor_id)
          × (r.0.situation_id ≡ s.id)
          × (any (is_past s.id r.0.fence) r.1.checkouts ≡ false)
          × (count (is_open s.id) r.1.checkouts ≡ 1)
          × (any
                (λ x. is_open s.id x && not (x.holder_id == actor_id && x.fence == r.0.fence))
                r.1.checkouts
              ≡ false))
        (checkout_situation out situation_id actor_id db)
unfolding checkout_situation
checkout_owns out s situation_id actor_id db found behind =
    mapped out s situation_id actor_id db found behind
      (checkout_transaction out situation_id actor_id db)
      (committed out s situation_id actor_id db found behind)
