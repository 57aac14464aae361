-- ===== src/Preflight.antt =====
-- The checks that run before the pipeline.
pub mod Checks
pub mod Run
pub mod Revisions
pub mod Order
pub mod Clean
mod Tests
