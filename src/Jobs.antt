-- ===== src/Jobs.antt =====
-- The job loop: one row, a batch, and the whole queue.
pub mod Loop
pub mod Saved
pub mod Listed
pub mod Progress
pub mod Draining
mod Tests
