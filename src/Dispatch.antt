-- ===== src/Dispatch.antt =====
-- infrastructure/browser/dispatch.py: the buffer of candidate jobs between producer and workers.
pub mod Buffer
pub mod System
pub mod Sound
pub mod Delivery
pub mod Producer
pub mod Shutdown
pub mod Stopping
mod Tests
