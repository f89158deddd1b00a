-- ===== src/Store/Tape.antt =====
-- src/tape_service/store/tape.py: a user's configuration, tape and runs in Redis.
pub mod Config
pub mod Entries
pub mod Runs
pub mod View
pub mod Append
pub mod Operations
pub mod Laws
pub mod RoundTrip
pub mod Sources
pub mod Users
pub mod Pages
