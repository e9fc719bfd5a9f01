-- ===== src/Rollout.antt =====
-- Canary stages: application/canary.py and ports/canary.py.
pub mod Service
pub mod Restores
pub mod Repeat
