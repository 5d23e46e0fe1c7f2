-- ===== src/Store/Keys.antt =====
-- The partial unique indexes of review jobs
-- (packages/db/prisma/migrations/20260723192252_initial_foundation and
-- 20260801173000_focused_review_lane_and_failure_reasons): what the database refuses with `P2002`.
-- An index is tested for the row that is written.
use situation_studio.Prelude.{Bool, List, Uuid, ◌&&◌, ◌==◌, leb}
use situation_studio.Prelude.Rows.{count}
use situation_studio.Store.Review.{ReviewJob, is_active, is_running}

-- `review_jobs_one_lane_owner`
unfoldable pub one_lane_owner : List ReviewJob → Bool
one_lane_owner jobs = leb (count (λ j. j.lane_owner) jobs) 1

-- `review_jobs_one_running_globally`
unfoldable pub one_running : List ReviewJob → Bool
one_running jobs = leb (count (λ j. is_running j.state) jobs) 1

-- `review_jobs_one_active_per_situation`
unfoldable pub one_active_review : Uuid → List ReviewJob → Bool
one_active_review situation_id jobs =
    leb (count (λ j. is_active j.state && j.situation_id == situation_id) jobs) 1

-- What a write of a job of one situation must satisfy.
unfoldable pub review_keys : Uuid → List ReviewJob → Bool
unfolding one_lane_owner one_running one_active_review
review_keys situation_id jobs =
    one_lane_owner jobs && one_running jobs && one_active_review situation_id jobs
