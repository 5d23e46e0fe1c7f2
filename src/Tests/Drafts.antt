-- ===== src/Tests/Drafts.antt =====
-- Saves and checkouts.
use situation_studio.Prelude.{◌≡◌, refl, false, ◌&&◌, not, ◌==◌, none, some, [], ◌∷◌, Digest, any}
use situation_studio.Prelude.Rows.{find_first, count}
use situation_studio.Prelude.Results.{ok, err, Always}
use situation_studio.Store.{
  Db, Draft, DraftState, Revision, SchemaVersion, Checkout, Situation, Visibility,
}
use situation_studio.Workflow.Failure.{stale_revision}
use situation_studio.Workflow.Guards.{latest_revision}
use situation_studio.Workflow.Revision.{Content, Save, create_revision}
use situation_studio.Workflow.Revision.Saving.{saved_is_latest, no_lost_update}
use situation_studio.Workflow.Checkout.{Production, checkout_situation}
use situation_studio.Workflow.Checkout.Ownership.{checkout_owns, is_open, is_past}
use situation_studio.Samples.{saved_db, held_checkout}

abbrev draft : Draft
draft = record {
  id = 3;
  situation_id = 1;
  lineage = 1;
  state = DraftState.active;
  base_release_id = none;
  base_bundle_hash = none;
  rebase_release_id = none;
  conflicted_at = none;
  archived_at = none;
  current_revision_number = 1;
  current_bundle_hash = some 7;
}

abbrev db : Db
db = record saved_db { drafts = draft ∷ [] }

abbrev content : Digest → Content
content hash = record {
  bundle_hash = hash;
  schema_version = SchemaVersion.v2;
  contract_version = "v2";
  body = "# New";
}

abbrev save : Digest → Save
save hash = record {
  draft_id = 3;
  actor_id = 2;
  content = ok (content hash);
  named_checkpoint = "Autosave";
  expected_parent = some (20, 7);
  preserve_proposal_id = none;
}

saved_is_latest_example :
    Always
      (λ (r : Revision × Db). (latest_revision 3 r.1.revisions ≡ some r.0) × (r.0.bundle_hash ≡ 8))
      (create_revision 5000 21 (save 8) db)
unfolding find_first
saved_is_latest_example = saved_is_latest 5000 21 (save 8) (content 8) draft db refl refl refl

no_lost_update_example :
    Always
      (λ (r : Revision × Db). create_revision 6000 22 (save 9) r.1 ≡ err stale_revision)
      (create_revision 5000 21 (save 8) db)
unfolding find_first
no_lost_update_example =
    no_lost_update 5000 21 (save 8) (content 8) draft db 20 7 refl refl refl refl refl refl 6000 22
      (save 9) (content 9) refl refl refl

abbrev situation : Situation
situation = record {
  id = 1;
  slug = "late";
  title = "Late";
  visibility = Visibility.public;
  fence = 1;
  production_bundle_hash = none;
  production_release_id = none;
}

abbrev free_db : Db
free_db = record db {
  situations = situation ∷ [];
  checkouts = record held_checkout { released_at = some 900 } ∷ [];
}

abbrev production : Production
production = record {
  base_version = λ id. none;
  template = λ s. some (ok (content 8));
  now = 5000;
  draft_id = 4;
  revision_id = 21;
  checkout_id = 11;
}

checkout_owns_example :
    Always
      (λ (r : Checkout × Db).
        (r.0.holder_id ≡ 6)
        × (r.0.situation_id ≡ 1)
        × (any (is_past 1 r.0.fence) r.1.checkouts ≡ false)
        × (count (is_open 1) r.1.checkouts ≡ 1)
        × (any (λ x. is_open 1 x && not (x.holder_id == 6 && x.fence == r.0.fence)) r.1.checkouts
            ≡ false))
      (checkout_situation production 1 6 free_db)
unfolding find_first
checkout_owns_example = checkout_owns production situation 1 6 free_db refl refl
