-- ===== src/Store.antt =====
-- src/tape_service/store: what the service keeps in Redis.
pub mod Tape
pub mod Events
pub mod Lock
pub mod Sessions
