-- ===== src/Worker.antt =====
-- src/tape_service/worker: the background worker.
pub mod Generator
pub mod Listener
pub mod Tick
pub mod Scheduler
pub mod Entry
