-- ===== src/Store.antt =====
-- The rows that the workflows and the workers read and write (packages/db/prisma/schema.prisma, and
-- the columns that apps/web and apps/review-worker name), with the state that a transaction acts on.
mod Review
mod Editorial
mod Publication
mod Audit
pub mod Keys
pub use Review.*
pub use Editorial.*
pub use Publication.*
pub use Audit.*
use situation_studio.Prelude.{List}

-- One database. A transaction is a function of it; one that throws leaves it as it was.
pub record Db : Type 0 where
  pub situations : List Situation
  pub checkouts : List Checkout
  pub drafts : List Draft
  pub revisions : List Revision
  pub jobs : List ReviewJob
  pub runs : List AgentRun
  pub proposals : List Proposal
  pub publications : List PublicationJob
  pub audit : List AuditEvent
