-- ===== src/Experiments.antt =====
-- Canary experiments in the database: adapters/postgres/experiments.py and
-- application/experiments.py.
pub mod Receipts
pub mod Sql
pub mod Service
pub mod Record
pub mod History
