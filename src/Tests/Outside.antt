-- ===== src/Tests/Outside.antt =====
-- The provider calls and the page's live status on concrete inputs.
use situation_studio.Prelude.{
  ◌≡◌, refl, ℕ, true, false, ◌||◌, Bool, String, str_eq, some, List, [], ◌∷◌, leb, if◌then◌else◌,
}
use situation_studio.Prelude.Rows.{select}
use situation_studio.Prelude.Results.{ok, err}
use situation_studio.Samples.{capacity_failure}
use situation_studio.Store.{JobState}
use situation_studio.Adapters.{
  Call, codex, claude, run_with_fallback, append_all, max_provider_bytes, output_too_large,
}
use situation_studio.Adapters.Bounds.{
  Both, attempts_are_valid, fallback_bounded, total, append_exactly,
}
use situation_studio.Web.LiveReview.{
  Snapshot, LiveReviewState, LiveReviewAction, report, opened, stop, snapshot_of, reduce_all,
  initial_live_review_state, reduce_live_review_state, reduce_report, matches_current_connection,
  displayed_review_snapshot,
}
use situation_studio.Web.LiveReview.Freshness.{displayed_sound, stale_dropped, is_current}

abbrev first_call : Call ℕ
first_call = record {
  provider = codex;
  model = "codex-model";
  result = err capacity_failure;
  started_at = 500;
  now = 9000000;
  aborted = false;
  parent_aborted = false;
}

abbrev second_call : Call ℕ
second_call = record first_call {
  provider = claude;
  model = "claude-model";
  result = ok 7;
  started_at = 600;
}

abbrev fits : String → Bool
fits name = str_eq name "codex-model" || str_eq name "claude-model"

fallback_bounded_example :
    Both
      (λ r. attempts_are_valid fits r.1 ≡ true)
      (λ f. attempts_are_valid fits f.attempts ≡ true)
      (run_with_fallback first_call second_call)
fallback_bounded_example = fallback_bounded fits first_call second_call refl refl

append_exactly_example : append_all (2097152 ∷ 1 ∷ []) [] 0 ≡ (
    if leb (total (2097152 ∷ 1 ∷ [])) max_provider_bytes
    then ok (2097152 ∷ 1 ∷ [], total (2097152 ∷ 1 ∷ []))
    else err output_too_large)
append_exactly_example = append_exactly (2097152 ∷ 1 ∷ [])

abbrev first_snapshot : Snapshot
first_snapshot = record { review_job_id = 1; snapshot_id = 10; state = JobState.running }

abbrev second_snapshot : Snapshot
second_snapshot = record { review_job_id = 1; snapshot_id = 11; state = JobState.succeeded }

abbrev live : LiveReviewState
live = initial_live_review_state (some first_snapshot)

abbrev reports : List LiveReviewAction
reports = report 1 0 opened ∷ report 1 7 stop ∷ report 1 0 (snapshot_of second_snapshot) ∷ []

displayed_sound_example : second_snapshot.review_job_id ≡ first_snapshot.review_job_id
unfolding initial_live_review_state reduce_all reduce_live_review_state reduce_report
    matches_current_connection displayed_review_snapshot
displayed_sound_example = displayed_sound reports live first_snapshot second_snapshot refl refl refl

stale_dropped_example : reduce_all live reports ≡ reduce_all live (select (is_current live) reports)
stale_dropped_example = stale_dropped reports live refl
