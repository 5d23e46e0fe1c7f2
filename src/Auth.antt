-- ===== src/Auth.antt =====
-- apps/web/src/server/auth: who may try to log in, and who is logged in.
pub mod Throttle
pub mod Sessions
