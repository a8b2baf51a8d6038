-- ===== src/Bulk.antt =====
-- The bulk import of a folder, app/services/bulk_import_service.py.
pub mod Discovery
pub mod Import
pub mod Counts
pub mod Progress
pub mod Report
pub mod Kept
pub mod Stored
mod Tests
