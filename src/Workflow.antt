-- ===== src/Workflow.antt =====
-- apps/web/src/server/workflows/situations.ts: the editor's commands. A command is one serializable
-- transaction: it gives a value and the new database, or throws and changes nothing.
pub mod Failure
pub mod Guards
pub mod Review
pub mod Retry
pub mod Checkin
pub mod Keeping
pub mod Releasing
pub mod Queueing
pub mod Revoking
pub mod Resuming
pub mod Revision
pub mod Checkout
pub mod Opening
