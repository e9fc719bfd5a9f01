-- ===== src/Soak.antt =====
-- The soak that follows a promotion: application/soak.py with the services that it calls, and
-- adapters/postgres/soak_decisions.py.
pub mod Decisions
pub mod Ports
pub mod Runtime
pub mod Service
pub mod Observes
pub mod Restores
pub mod Rollback
pub mod Errors
