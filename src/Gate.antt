-- ===== src/Gate.antt =====
-- infrastructure/browser/gate.py: the gate that holds all workers back after a rate limit.
pub mod State
pub mod Reopening
pub mod Probes
mod Tests
