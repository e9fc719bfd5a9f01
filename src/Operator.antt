-- ===== src/Operator.antt =====
-- The operator's requests, interventions and events: application/operator.py and
-- adapters/postgres/operator.py.
pub mod Events
pub mod Cursor
pub mod Pages
pub mod Numbered
pub mod Requests
pub mod Interventions
pub mod Service
pub mod Outcome
pub mod Repeats
pub mod Submits
pub mod Starts
pub mod Humans
pub mod Answers
