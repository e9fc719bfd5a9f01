-- ===== src/Feedback.antt =====
-- Feedback and its attribution: application/feedback.py, adapters/postgres/feedback.py and
-- request_attributions.py.
pub mod Sql
pub mod Service
pub mod Attributed
pub mod Listed
