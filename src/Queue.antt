-- ===== src/Queue.antt =====
-- The scrape queue: the table, its repositories, and what holds of them.
pub mod Table
pub mod Repository
pub mod JobRepository
pub mod UrlTable
pub mod PlayerInfo
pub mod Operations
pub mod Lifecycle
pub mod Moves
pub mod Refinement
pub mod Claims
pub mod Head
pub mod Recovery
pub mod Ceiling
pub mod Retries
mod Tests
