-- ===== src/Cycles.antt =====
-- Development cycles in the database: ports/persistence.py, adapters/postgres/cycles.py and
-- application/cycles.py.
pub mod Repository
pub mod Rows
pub mod Sql
pub mod Constraints
pub mod Sound
pub mod Commit
pub mod Service
pub mod Replay
