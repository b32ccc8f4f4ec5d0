-- ===== src/Catalog.antt =====
-- services/portal-backend/routers/catalog.py.
pub mod Patterns
pub mod Checks
pub mod Publish
pub mod Patch
pub mod Rows
