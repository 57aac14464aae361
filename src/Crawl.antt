-- ===== src/Crawl.antt =====
-- The player_info workers: one claimed job, the claim loops, what they leave in the queue, and the
-- browser sessions around the buffered one.
pub mod Job
pub mod Loops
pub mod Handled
pub mod Copies
pub mod Running
pub mod Tidy
pub mod Buffered
pub mod Mirror
pub mod Quiet
pub mod Startup
pub mod Candidates
pub mod Schedulable
pub mod Drained
mod Tests
