-- ===== src/Diagnoses.antt =====
-- Diagnoses: application/diagnosis.py and adapters/postgres/diagnoses.py, over ports/codex.py.
pub mod Codex
pub mod Sql
pub mod Output
pub mod References
pub mod Service
pub mod Grounded
