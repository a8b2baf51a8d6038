-- ===== src/Jobs.antt =====
-- The import job registry, app/services/job_store.py: the snapshot `ImportJob` and the in-process
-- store. `_ERROR_CAP` is `error_cap`; the keyword `record` names the method
-- `record_outcome` here.
pub mod Memory
pub mod Calls
pub mod Counters
pub mod Commands
pub mod Redis
pub mod Keys
pub mod Holds
pub mod Others
pub mod Reads
pub mod Refines
pub mod Workers
mod Sample
mod Tests
pub mod Defs
