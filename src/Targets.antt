-- ===== src/Targets.antt =====
-- Targets and their objectives: application/target_registry.py and
-- adapters/postgres/target_registry.py.
pub mod Sql
pub mod Service
pub mod Registered
