-- ===== src/Proposals.antt =====
-- Proposals: application/proposals.py and adapters/postgres/proposals.py.
pub mod Sql
pub mod Service
pub mod InScope
