-- ===== src/Domain/Policies.antt =====
-- src/autonomous_development/domain/policies.py: the scope of a change.
pub mod Paths
pub mod Scope
pub mod Traversal
pub mod Accepted
