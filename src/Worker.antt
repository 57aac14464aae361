-- ===== src/Worker.antt =====
-- core/application/base_worker.py: the worker skeleton that restarts its browser.
pub mod Loop
pub mod Restarts
mod Tests
