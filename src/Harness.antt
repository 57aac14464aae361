-- ===== src/Harness.antt =====
-- cli/smoke_clearance_real.py: the gated clearance run.
pub mod Patterns
pub mod Seams
pub mod Gates
pub mod Browser
pub mod Run
pub mod Passing
pub mod Conditions
pub mod Launch
pub mod Clearance
pub mod Cleared
pub mod Reports
pub mod Offline
pub mod Tests
