-- ===== src/Web.antt =====
-- State that the editor's page keeps: the live status of a review (apps/web/src).
pub mod LiveReview
