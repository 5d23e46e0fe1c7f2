-- ===== src/Health.antt =====
-- apps/web/src/server/health: whether the backups allow a publication.
pub mod Backup
