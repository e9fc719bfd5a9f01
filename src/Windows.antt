-- ===== src/Windows.antt =====
-- Evidence windows: application/evidence_windows.py and adapters/postgres/evidence_windows.py.
pub mod Sql
pub mod Service
pub mod Repeats
