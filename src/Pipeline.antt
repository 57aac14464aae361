-- ===== src/Pipeline.antt =====
-- scripts/scrape_pipeline.py: the three steps, run together.
pub mod Tasks
pub mod Facts
pub mod Keeps
pub mod Order
pub mod Rounds
pub mod Stalled
pub mod Finishing
pub mod Tests
