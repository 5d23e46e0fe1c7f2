-- ===== src/Worker.antt =====
-- apps/review-worker/src/review.ts: one globally serialized lane of review jobs.
pub mod Failure
pub mod Lane
pub mod Steps
pub mod Success
pub mod Failing
pub mod Application
pub mod Repair
pub mod Running
pub mod Readiness
pub mod Concluding
pub mod Fencing
pub mod Keeping
pub mod Reporting
pub mod Outcomes
