-- ===== src/Iteration.antt =====
-- The preparation of an iteration: application/iteration.py.
pub mod Context
pub mod Service
pub mod Keeps
pub mod Outcome
pub mod Proposed
pub mod Prepared
