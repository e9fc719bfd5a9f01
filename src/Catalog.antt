-- ===== src/Catalog.antt =====
-- The release catalogue: application/release_catalog.py, application/release_finalization.py and
-- adapters/postgres/releases.py.
pub mod Sql
pub mod Service
pub mod Pointer
pub mod Serving
pub mod Served
pub mod Finalization
pub mod Finalized
