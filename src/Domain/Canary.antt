-- ===== src/Domain/Canary.antt =====
-- src/autonomous_development/domain/canary.py and domain/soak.py: the decisions on a canary stage
-- and on the soak that follows a promotion.
pub mod Floats
pub mod Evidence
pub mod Evaluate
pub mod Soak
pub mod Soaks
pub mod Sufficient
pub mod Decides
pub mod History
pub mod Climb
