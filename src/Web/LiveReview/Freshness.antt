-- ===== src/Web/LiveReview/Freshness.antt =====
-- The page shows one review, and what a connection that was replaced reports late changes nothing.
use situation_studio.Prelude.{
  ◌≡◌, refl, inl, inr, Bool, true, false, Option, none, some, List, [], ◌∷◌, arith, Uuid, ◌==◌,
  holds, all, Bool-cases, Option-cases,
}
use situation_studio.Prelude.Rows.{select}
use situation_studio.Web.LiveReview.{
  Snapshot, LiveReviewState, LiveReviewAction, sync, start, report, Report, opened,
  connection_error, stop, snapshot_of, reduce_report, reduce_live_review_state, reduce_all,
  matches_current_connection, displayed_review_snapshot,
}

abbrev about : Option Uuid → Option Snapshot → Bool
about id none = true
about id (some s) = holds id s.review_job_id

-- The snapshot is of the review that the state names.
abbrev pub IsSound : LiveReviewState → Type 0
IsSound state = about state.review_job_id state.snapshot ≡ true

-- A connection is started with a snapshot of its review.
abbrev pub is_proper : LiveReviewAction → Bool
is_proper (start id generation s) = s.review_job_id == id
is_proper _ = true

report-IsSound :
    (r : Report) (state : LiveReviewState) → IsSound state → IsSound (reduce_report r state)
unfolding reduce_report
report-IsSound opened state h = ground arith
report-IsSound connection_error state h = ground arith
report-IsSound stop state h = h
report-IsSound (snapshot_of s) state h = ground arith

action-IsSound :
    (a : LiveReviewAction) (state : LiveReviewState)
    → is_proper a ≡ true
    → IsSound state
    → IsSound (reduce_live_review_state state a)
unfolding reduce_live_review_state
action-IsSound (sync g none) state p h = refl
action-IsSound (sync g (some s)) state p h = ground arith
action-IsSound (start id g s) state p h = ground arith
action-IsSound (report id g r) state p h =
    elim (Bool-cases (matches_current_connection id g state)) [
      | inl e ↦ rw e (report-IsSound r state h)
      | inr e ↦ rw e h
    ]

all-IsSound :
    (actions : List LiveReviewAction) (state : LiveReviewState)
    → all is_proper actions ≡ true
    → IsSound state
    → IsSound (reduce_all state actions)
unfolding reduce_all
all-IsSound [] state p h = h
all-IsSound (a ∷ rest) state p h =
    all-IsSound rest (reduce_live_review_state state a) (ground arith)
      (action-IsSound a state (ground arith) h)

displayed_about :
    (state : LiveReviewState) (server shown : Snapshot)
    → IsSound state
    → displayed_review_snapshot state (some server) ≡ some shown
    → shown.review_job_id ≡ server.review_job_id
unfolding displayed_review_snapshot
displayed_about state server shown h e = elim (Option-cases state.snapshot) [
  | inl n ↦ ground arith
  | inr (s, f) ↦ ground arith
]

-- The page shows one review: after any actions, whose connections were started with a snapshot of their
-- review, the displayed snapshot is of the review that the server's is of.
pub displayed_sound :
    (actions : List LiveReviewAction) (state : LiveReviewState) (server shown : Snapshot)
    → all is_proper actions ≡ true
    → IsSound state
    → displayed_review_snapshot (reduce_all state actions) (some server) ≡ some shown
    → shown.review_job_id ≡ server.review_job_id
displayed_sound actions state server shown p h =
    displayed_about (reduce_all state actions) server shown (all-IsSound actions state p h)

abbrev is_report : LiveReviewAction → Bool
is_report (report id g r) = true
is_report _ = false

-- A report of the connection that the state is under.
abbrev pub is_current : LiveReviewState → LiveReviewAction → Bool
is_current state (report id g r) = matches_current_connection id g state
is_current state _ = true

-- A report leaves the review and the generation as they are.
report_same_connection :
    (a : LiveReviewAction) (state : LiveReviewState)
    → is_report a ≡ true
    → ((reduce_live_review_state state a).review_job_id ≡ state.review_job_id)
      × ((reduce_live_review_state state a).generation ≡ state.generation)
unfolding reduce_live_review_state reduce_report
report_same_connection (sync g s) state h = absurd cc
report_same_connection (start id g s) state h = absurd cc
report_same_connection (report id g opened) state h = (ground arith, ground arith)
report_same_connection (report id g connection_error) state h = (ground arith, ground arith)
report_same_connection (report id g stop) state h = (ground arith, ground arith)
report_same_connection (report id g (snapshot_of s)) state h = (ground arith, ground arith)

current_kept :
    (a b : LiveReviewAction) (state : LiveReviewState)
    → is_report a ≡ true
    → is_current (reduce_live_review_state state a) b ≡ is_current state b
unfolding matches_current_connection
current_kept a (sync g s) state h = refl
current_kept a (start id g s) state h = refl
current_kept a (report id g r) state h =
    let (j, n) = report_same_connection a state h in rw (j, n) refl

stale_ignored :
    (a : LiveReviewAction) (state : LiveReviewState)
    → is_current state a ≡ false
    → reduce_live_review_state state a ≡ state
unfolding reduce_live_review_state
stale_ignored (sync g s) state h = absurd cc
stale_ignored (start id g s) state h = absurd cc
stale_ignored (report id g r) state h = rw h refl

select_same :
    (p q : LiveReviewAction → Bool)
    → ((a : LiveReviewAction) → p a ≡ q a)
    → (actions : List LiveReviewAction) → select p actions ≡ select q actions
unfolding select
select_same p q h [] = refl
select_same p q h (a ∷ rest) = rw (h a, select_same p q h rest) refl

-- Late reports of replaced connections change nothing: the page comes to the same state without them,
-- in whatever order they arrive among the reports of the current connection.
pub stale_dropped :
    (actions : List LiveReviewAction) (state : LiveReviewState)
    → all is_report actions ≡ true
    → reduce_all state actions ≡ reduce_all state (select (is_current state) actions)
unfolding reduce_all select
stale_dropped [] state h = refl
stale_dropped (a ∷ rest) state h = elim (Bool-cases (is_current state a)) [
  | inl e ↦
      let ih = stale_dropped rest (reduce_live_review_state state a) (ground arith) in
      let same =
        select_same (is_current (reduce_live_review_state state a)) (is_current state)
          (λ b. current_kept a b state (ground arith)) rest in
      rw e (rw same at ih)
  | inr e ↦ let ih = stale_dropped rest state (ground arith) in rw (e, stale_ignored a state e) ih
]
