-- ===== src/Server.antt =====
-- The work server: validation of submitted URLs, the queue adapter, the HTTP handlers.
pub mod Urls
pub mod Adapter
pub mod Json
pub mod Requests
pub mod Clearances
pub mod Routes
pub mod Allowlist
pub mod Vetting
pub mod Insertion
pub mod Decisions
pub mod Submission
pub mod Access
mod Tests
