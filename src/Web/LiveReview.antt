-- ===== src/Web/LiveReview.antt =====
-- The live status of a review in the page: the reducer of apps/web/src/review-status-client.ts, whose
-- actions come from a stream that may be reopened.
pub mod Freshness
use situation_studio.Prelude.{
  ℕ, Bool, true, false, ◌&&◌, ◌||◌, not, Option, none, some, List, [], ◌∷◌, Uuid, Millis, ◌==◌, ltb,
  holds, ◌+◌, is_some, if◌then◌else◌, same,
}
use situation_studio.Store.{JobState}

-- `ReviewStatusSnapshot`, as far as the reducer reads it.
pub record Snapshot : Type 0 where
  pub review_job_id : Uuid
  pub snapshot_id : Uuid
  pub state : JobState

pub data ConnectionPhase : Type 0 where
  idle connecting is_open reconnecting closed : ConnectionPhase

pub record LiveReviewState : Type 0 where
  pub review_job_id : Option Uuid
  pub server_snapshot_id : Option Uuid
  pub generation : ℕ
  pub connection : ConnectionPhase
  pub snapshot : Option Snapshot

-- What a connection reports; `generation` is the one under which it was opened.
pub data Report : Type 0 where
  opened connection_error stop : Report
  snapshot_of : Snapshot → Report

pub data LiveReviewAction : Type 0 where
  sync : (generation : ℕ) → Option Snapshot → LiveReviewAction
  start : (review_job_id : Uuid) (generation : ℕ) → Snapshot → LiveReviewAction
  report : (review_job_id : Uuid) (generation : ℕ) → Report → LiveReviewAction

abbrev job_of : Option Snapshot → Option Uuid
job_of none = none
job_of (some s) = some s.review_job_id

abbrev id_of : Option Snapshot → Option Uuid
id_of none = none
id_of (some s) = some s.snapshot_id

unfoldable pub initial_live_review_state : Option Snapshot → LiveReviewState
initial_live_review_state snapshot = record {
  review_job_id = job_of snapshot;
  server_snapshot_id = id_of snapshot;
  generation = 0;
  connection = idle;
  snapshot = snapshot;
}

abbrev or_server : Option Snapshot → Snapshot → Snapshot
or_server none server = server
or_server (some s) server = s

-- `displayedReviewSnapshot`.
unfoldable pub displayed_review_snapshot : LiveReviewState → Option Snapshot → Option Snapshot
displayed_review_snapshot state none = none
displayed_review_snapshot state (some server) =
    if not (holds state.review_job_id server.review_job_id)
      || not (holds state.server_snapshot_id server.snapshot_id)
    then some server
    else some (or_server state.snapshot server)

-- `isTerminalReviewState`.
abbrev pub is_terminal : JobState → Bool
is_terminal JobState.succeeded = true
is_terminal JobState.failed = true
is_terminal JobState.cancelled = true
is_terminal _ = false

-- `isTerminalReviewState(state.snapshot?.state ?? "CANCELLED")`.
abbrev is_done : Option Snapshot → Bool
is_done none = true
is_done (some s) = is_terminal s.state

unfoldable pub matches_current_connection : Uuid → ℕ → LiveReviewState → Bool
matches_current_connection review_job_id generation state =
    holds state.review_job_id review_job_id && state.generation == generation

unfoldable pub reduce_report : Report → LiveReviewState → LiveReviewState
reduce_report opened state =
    if is_done state.snapshot then state else record state { connection = is_open }
reduce_report connection_error state =
    if is_done state.snapshot then state else record state { connection = reconnecting }
reduce_report stop state = record state { connection = closed }
reduce_report (snapshot_of s) state =
    if not (holds state.review_job_id s.review_job_id) || holds (id_of state.snapshot) s.snapshot_id
    then state
    else record state {
      connection = if is_terminal s.state then closed else is_open;
      snapshot = some s;
    }

-- `reduceLiveReviewState`.
unfoldable pub reduce_live_review_state : LiveReviewState → LiveReviewAction → LiveReviewState
reduce_live_review_state state (sync generation snapshot) = record {
  review_job_id = job_of snapshot;
  server_snapshot_id = id_of snapshot;
  generation = generation;
  connection = if is_some snapshot then closed else idle;
  snapshot = snapshot;
}
reduce_live_review_state state (start review_job_id generation snapshot) = record {
  review_job_id = some review_job_id;
  server_snapshot_id = some snapshot.snapshot_id;
  generation = generation;
  connection = connecting;
  snapshot = some snapshot;
}
reduce_live_review_state state (report review_job_id generation r) =
    if matches_current_connection review_job_id generation state
    then reduce_report r state
    else state

unfoldable pub reduce_all : LiveReviewState → List LiveReviewAction → LiveReviewState
reduce_all state [] = state
reduce_all state (a ∷ rest) = reduce_all (reduce_live_review_state state a) rest
