-- ===== src/Publisher.antt =====
-- The publisher: claiming a publication job, promoting its release in Leadership, verifying it, and
-- restoring the previous release (apps/publisher/src/index.ts).
pub mod Tables
pub mod Failure
pub mod Events
pub mod Lease
pub mod Claim
pub mod Attempts
pub mod Outcome
pub mod Identity
pub mod Action
pub mod Promotion
pub mod Finalize
pub mod Probing
pub mod Steps
pub mod Course
pub mod Process
pub mod Hoare
pub mod Writing
pub mod Recovery
pub mod Run
pub mod Lifecycle
