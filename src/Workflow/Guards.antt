-- ===== src/Workflow/Guards.antt =====
-- The checks that the commands share, and the rows that they look up.
use situation_studio.Prelude.{
  String, str_eq, ℕ, Bool, ◌&&◌, ◌==◌, Option, none, some, List, [], ◌∷◌, Uuid, ltb, any, is_none,
  if◌then◌else◌,
}
use situation_studio.Prelude.Rows.{find_first}
use situation_studio.Prelude.Results.{Result, ok, err, ◌>>◌}
use situation_studio.Store.{
  Db, Checkout, Revision, publication_is_active, needs_recovery, is_active,
}
use situation_studio.Workflow.Failure.{
  WorkflowError, publication_recovery_required, publication_active, review_active,
}

-- `assertNoPublicationRecovery`
unfoldable pub assert_no_publication_recovery : Db → Result WorkflowError (Unit {0})
assert_no_publication_recovery db =
    if any (λ p. needs_recovery p.state) db.publications
    then err publication_recovery_required
    else ok tt

-- `assertNoActivePublication`, which `assertDraftMutationAllowed` is too.
unfoldable pub assert_no_active_publication : Uuid → Db → Result WorkflowError (Unit {0})
unfolding assert_no_publication_recovery
assert_no_active_publication situation_id db = do
  assert_no_publication_recovery db
  if any (λ p. p.situation_id == situation_id && publication_is_active p.state) db.publications
      then err publication_active
      else ok tt

-- `assertNoActiveReview`
unfoldable pub assert_no_active_review : Uuid → Db → Result WorkflowError (Unit {0})
assert_no_active_review situation_id db =
    if any (λ j. j.situation_id == situation_id && is_active j.state) db.jobs
    then err review_active
    else ok tt

-- The checkout of one holder under one fence, while it is not released.
unfoldable pub is_held_by : Uuid → Uuid → ℕ → Checkout → Bool
is_held_by checkout_id actor_id fence c =
    c.id == checkout_id && c.holder_id == actor_id && c.fence == fence && is_none c.released_at

unfoldable pub find_held : Uuid → Uuid → ℕ → Db → Option Checkout
unfolding is_held_by
find_held checkout_id actor_id fence db =
    find_first (is_held_by checkout_id actor_id fence) db.checkouts

-- `orderBy: { revision: "desc" }, take: 1`
abbrev newer : Revision → Option Revision → Revision
newer a none = a
newer a (some b) = if ltb a.revision b.revision then b else a

unfoldable pub latest_revision : Uuid → List Revision → Option Revision
latest_revision draft_id [] = none
latest_revision draft_id (r ∷ rs) =
    let rest = latest_revision draft_id rs in
    if r.draft_id == draft_id then some (newer r rest) else rest

abbrev pub or_throw {ℓ} : {A : Type ℓ} → Option A → WorkflowError → Result WorkflowError A
or_throw none e = err e
or_throw (some a) e = ok a

-- `if (!body)`: an empty text counts as missing.
abbrev pub non_empty : Option String → Option String
non_empty none = none
non_empty (some s) = if str_eq s "" then none else some s
