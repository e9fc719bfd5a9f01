-- ===== src/Domain.antt =====
-- The domain package: the values and the pure decisions.
pub mod Enums
pub mod Models
pub mod Transitions
pub mod Canary
pub mod Policies
pub mod Promotion
