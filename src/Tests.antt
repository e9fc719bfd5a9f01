-- ===== src/Tests.antt =====
-- Concrete runs that the theorems apply to.
mod Data
mod Lifecycle
mod Stages
mod Database
mod Delivery
mod Promotions
mod Catalogue
mod Soaking
mod Events
mod Requests
mod Feedback
mod Intake
mod Diagnosing
mod Iterating
mod Scheduling
