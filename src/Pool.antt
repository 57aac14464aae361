-- ===== src/Pool.antt =====
-- infrastructure/browser/pool.py: the fixed pool of supervised browser slots.
pub mod Slot
pub mod Engines
pub mod Backoff
mod Tests
