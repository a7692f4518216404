-- ===== src/Endpoints.antt =====
-- backend/routers/memories.py and backend/routers/governance.py: the endpoints for a request whose key
-- `verify_api_key` has accepted.
pub mod Memories
pub mod Owners
pub mod Jobs
pub mod Tasks
pub mod Summaries
pub mod Admin
pub mod JobCreation
pub mod Search
mod Tests
