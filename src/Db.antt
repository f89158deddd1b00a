-- ===== src/Db.antt =====
-- src/tape_service/db: the statements that the service sends to the platform's database.
pub mod Candidates
pub mod Users
pub mod Probe
pub mod Documents
pub mod Names
pub mod Score
