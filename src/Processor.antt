-- ===== src/Processor.antt =====
-- The processing of one fetched player page.
pub mod Player
pub mod References
mod Tests
