-- ===== src/Scheduler.antt =====
-- The scheduler of iterations: application/iteration_scheduler.py and
-- adapters/postgres/feedback_triggers.py.
pub mod Triggers
pub mod Policy
pub mod Reads
pub mod Service
pub mod Once
