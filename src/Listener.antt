-- ===== src/Listener.antt =====
-- The listener that turns due URLs into jobs, and its reconnects.
pub mod Upsert
pub mod Sessions
pub mod Conflicts
pub mod Repetition
mod Tests
