-- ===== src/Domain/Transitions.antt =====
-- src/autonomous_development/domain/transitions.py: the lifecycle table and its guard.
pub mod Table
pub mod Guard
pub mod Accepts
pub mod Lifecycle
pub mod Promotion
pub mod Keeps
