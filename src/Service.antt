-- ===== src/Service.antt =====
-- The service as a whole: which commands its operations send to Redis, and what every reachable
-- state of the server satisfies, however the commands of different requests interleave.
pub mod Steps
pub mod Follows
pub mod Stores
pub mod Requests
pub mod Logins
pub mod Brief
pub mod Ordered
pub mod Untouched
pub mod Operations
pub mod Reachable
pub mod Recovery
pub mod Turns
pub mod Exclusion
