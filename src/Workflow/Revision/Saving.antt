-- ===== src/Workflow/Revision/Saving.antt =====
-- What a save leaves as the draft's last revision, and what becomes of a save from an older one.
use situation_studio.Prelude.{
  ◌+◌, ◌≡◌, refl, inl, inr, Bool, false, ◌&&◌, ◌==◌, Option, none, some, List, [], ◌∷◌, ◌++◌, Uuid,
  Digest, Millis, ltb, arith, any, Bool-cases, if◌then◌else◌,
}
use situation_studio.Prelude.Rows.{find_first, count, update_many}
use situation_studio.Prelude.Writes.{find_first-update_many}
use situation_studio.Prelude.Results.{ok, err, Always}
use situation_studio.Store.{Db, Draft, Revision}
use situation_studio.Workflow.Failure.{stale_revision}
use situation_studio.Workflow.Guards.{latest_revision}
use situation_studio.Workflow.Revision.{
  Save, Content, create_revision, add_revision, new_revision, is_unmoved, supersede, is_parent,
}

-- No revision of a draft is past the number that the draft has.
abbrev pub past : Draft → Revision → Bool
past d r = r.draft_id == d.id && ltb d.current_revision_number r.revision

module _ (d : Draft) (r : Revision) (mine : r.draft_id ≡ d.id)
    (next : r.revision ≡ d.current_revision_number + 1) where
  added_last :
      (rs : List Revision) → any (past d) rs ≡ false → latest_revision d.id (rs ++ r ∷ []) ≡ some r
  unfolding latest_revision
  added_last [] h = ground (arith, mine)
  added_last (x ∷ xs) h = ground (arith, mine, next, added_last xs)

module _ (now : Millis) (id : Uuid) (input : Save) (c : Content) (d : Draft) (db : Db)
    (sound : any (past d) db.revisions ≡ false) where
  abbrev SavedLast : Revision × Db → Type 0
  SavedLast (r, db') =
      (latest_revision d.id db'.revisions ≡ some r) × (r.bundle_hash ≡ c.bundle_hash)

  added-SavedLast :
      (previous : Option Revision) → Always SavedLast (add_revision now id input c d previous db)
  unfolding add_revision new_revision
  added-SavedLast none = elim (Bool-cases (count (is_unmoved d) db.drafts == 1)) [
    | inr e ↦ rw (e) tt
    | inl e ↦ rw (e) (
        unfold supersede in
        (added_last d (new_revision id input c d none) refl refl db.revisions sound, refl))
  ]
  added-SavedLast (some p) = elim (Bool-cases (count (is_unmoved d) db.drafts == 1)) [
    | inr e ↦ rw (e) tt
    | inl e ↦ rw (e) (
        unfold supersede in
        (added_last d (new_revision id input c d (some p)) refl refl db.revisions sound, refl))
  ]

  created :
      (o : Option Revision)
      → latest_revision d.id db.revisions ≡ o
      → find_first (λ (x : Draft). x.id == input.draft_id) db.drafts ≡ some d
      → input.content ≡ ok c
      → Always SavedLast (create_revision now id input db)
  unfolding create_revision
  created none e f g = elim (Bool-cases (is_parent input.expected_parent none)) [
    | inr h ↦ rw (f, e, g, h) tt
    | inl h ↦ rw (f, e, g, h) (added-SavedLast none)
  ]
  created (some p) e f g = elim (Bool-cases (is_parent input.expected_parent (some p))) [
    | inr h ↦ rw (f, e, g, h) tt
    | inl h ↦
        rw (f, e, g, h)
          (elim (Bool-cases (p.bundle_hash == c.bundle_hash)) [
            | inl k ↦ rw (k) (e, ground (arith, k))
            | inr k ↦ rw (k) (added-SavedLast (some p))
          ])
  ]

-- While no revision of the draft is past the draft's number, a save that does not throw gives the
-- draft's last revision, and it has the hash of the saved content: it was there before, or it was added.
pub saved_is_latest :
    (now : Millis) (id : Uuid) (input : Save) (c : Content) (d : Draft) (db : Db)
    → find_first (λ (x : Draft). x.id == input.draft_id) db.drafts ≡ some d
    → any (past d) db.revisions ≡ false
    → input.content ≡ ok c
    → Always
        (λ (r : Revision × Db).
          (latest_revision d.id r.1.revisions ≡ some r.0) × (r.0.bundle_hash ≡ c.bundle_hash))
        (create_revision now id input db)
saved_is_latest now id input c d db f sound g =
    created now id input c d db sound (latest_revision d.id db.revisions) refl f g

module _ (now : Millis) (id : Uuid) (input : Save) (c : Content) (d : Draft) (db : Db)
    (parent : Uuid) (hash : Digest)
    (found : find_first (λ (x : Draft). x.id == input.draft_id) db.drafts ≡ some d)
    (sound : any (past d) db.revisions ≡ false) (content : input.content ≡ ok c)
    (expects : input.expected_parent ≡ some (parent, hash))
    (changed : (hash == c.bundle_hash) ≡ false) (fresh : (id == parent) ≡ false) (now2 : Millis)
    (id2 : Uuid) (second : Save) (c2 : Content) (same_draft : second.draft_id ≡ input.draft_id)
    (content2 : second.content ≡ ok c2)
    (expects2 : second.expected_parent ≡ some (parent, hash)) where
  abbrev Refused : Revision × Db → Type 0
  Refused (r, db') = create_revision now2 id2 second db' ≡ err stale_revision

  -- The second save finds the first one's revision.
  refuses :
      (db' : Db) (d' : Draft) (r : Revision)
      → find_first (λ (x : Draft). x.id == second.draft_id) db'.drafts ≡ some d'
      → latest_revision d'.id db'.revisions ≡ some r
      → (r.id == parent) ≡ false
      → create_revision now2 id2 second db' ≡ err stale_revision
  unfolding create_revision
  refuses db' d' r f e n = rw (f, e, content2, expects2, n) refl

  abbrev moved : Draft → Draft
  moved x = record x {
    current_revision_number = d.current_revision_number + 1;
    current_bundle_hash = some c.bundle_hash;
  }

  still_found :
      find_first
        (λ (x : Draft). x.id == second.draft_id)
        (update_many (is_unmoved d) moved db.drafts)
      ≡ some (if is_unmoved d d then moved d else d)
  still_found = rw (same_draft) (
      find_first-update_many (λ x. x.id == input.draft_id) (is_unmoved d) moved (λ x e. refl)
        db.drafts d found)

  after_add :
      (previous : Option Revision) (db' : Db)
      → db'.drafts ≡ update_many (is_unmoved d) moved db.drafts
      → db'.revisions ≡ db.revisions ++ new_revision id input c d previous ∷ []
      → create_revision now2 id2 second db' ≡ err stale_revision
  after_add previous db' ed er =
      let r = new_revision id input c d previous in
      let last : latest_revision d.id db'.revisions ≡ some r =
        rw (er) (unfold new_revision in added_last d r refl refl db.revisions sound) in
      elim (Bool-cases (is_unmoved d d)) [
        | inl u ↦
            refuses db' (moved d) r (rw (ed, still_found, u) refl) last
              (unfold new_revision in fresh)
        | inr u ↦ refuses db' d r (rw (ed, still_found, u) refl) last (unfold new_revision in fresh)
      ]

  abbrev base : Option Revision → Db
  base previous = record db {
    revisions = db.revisions ++ new_revision id input c d previous ∷ [];
    drafts =
        update_many (is_unmoved d)
          (λ x. record x {
            current_revision_number = (new_revision id input c d previous).revision;
            current_bundle_hash = some (new_revision id input c d previous).bundle_hash;
          })
          db.drafts;
  }

  stale_after :
      (previous : Option Revision) → Always Refused (add_revision now id input c d previous db)
  unfolding add_revision
  stale_after none = elim (Bool-cases (count (is_unmoved d) db.drafts == 1)) [
    | inr e ↦ rw (e) tt
    | inl e ↦ rw (e) (
        after_add none (supersede now id input.preserve_proposal_id none (base none))
          (unfold supersede new_revision in refl) (unfold supersede in refl))
  ]
  stale_after (some p) = elim (Bool-cases (count (is_unmoved d) db.drafts == 1)) [
    | inr e ↦ rw (e) tt
    | inl e ↦ rw (e) (
        after_add (some p) (supersede now id input.preserve_proposal_id (some p) (base (some p)))
          (unfold supersede new_revision in refl) (unfold supersede in refl))
  ]

  stale_created :
      (o : Option Revision)
      → latest_revision d.id db.revisions ≡ o
      → Always Refused (create_revision now id input db)
  unfolding create_revision
  stale_created none e = rw (found, e, content, expects) tt
  stale_created (some p) e = elim (Bool-cases (p.id == parent && p.bundle_hash == hash)) [
    | inr h ↦ rw (found, e, content, expects, h) tt
    | inl h ↦
        rw (found, e, content, expects, h)
          (elim (Bool-cases (p.bundle_hash == c.bundle_hash)) [
            | inl k ↦ absurd (ground (arith, h, k, changed))
            | inr k ↦ rw (k) (stale_after (some p))
          ])
  ]

  -- A save of content with a new hash from a parent, and right after it a second save into the
  -- same draft from the same parent, both of contents that pass the checks: if the first one goes
  -- through, the second is refused as stale. The draft is found, no revision of it is past its
  -- number, and the id of the first save's revision is not the parent's.
  pub no_lost_update :
      Always
        (λ (r : Revision × Db). create_revision now2 id2 second r.1 ≡ err stale_revision)
        (create_revision now id input db)
  no_lost_update = stale_created (latest_revision d.id db.revisions) refl
