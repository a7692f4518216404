-- ===== src/Worker.antt =====
-- The processes beside the server: scripts/governance_worker.py, which asks it to run jobs, and
-- scripts/scheduled_consolidate.py, which asks it for consolidations. HTTP, files and the environment are
-- parameters or parts of the state.
pub mod Lock
pub mod Exclusion
pub mod Loop
pub mod Schedule
pub mod Retries
mod Tests
