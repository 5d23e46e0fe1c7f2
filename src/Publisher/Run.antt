-- ===== src/Publisher/Run.antt =====
-- What a run of the publisher guarantees, whatever the outside answers.
pub mod Quiet
pub mod Probes
pub mod Reports
pub mod Verifying
pub mod Knowing
pub mod Showing
pub mod Promoting
pub mod Safety
pub mod Course
pub mod Ending
pub mod Handling
pub mod Guarantees
pub mod Rebuilding
