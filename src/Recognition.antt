-- ===== src/Recognition.antt =====
-- The recognition service, app/services/recognition_service.py.
pub mod Types
pub mod Enroll
pub mod Match
pub mod Calls
pub mod Kept
pub mod Flags
pub mod Audit
pub mod Matching
pub mod Answers
pub mod Verify
mod Tests
