-- ===== src/Tests.antt =====
-- The theorems at concrete databases.
mod Lane
mod Reports
mod Accounts
mod Drafts
mod Publishing
mod Outside
mod Recovery
mod Targets
mod Stages
