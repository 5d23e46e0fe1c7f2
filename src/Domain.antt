-- ===== src/Domain.antt =====
-- packages/domain: what is modelled of the texts that the whole program shares.
pub mod Sections
