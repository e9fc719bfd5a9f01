-- ===== src/Releases.antt =====
-- Release decisions: application/releases.py and adapters/postgres/release_decisions.py.
pub mod Decisions
pub mod Recompute
pub mod Service
pub mod Promote
pub mod Ready
