-- ===== src/Api.antt =====
-- src/tape_service/api: the HTTP routes.
pub mod Roles
pub mod Pages
pub mod Tape
pub mod Score
pub mod Config
pub mod Auth
pub mod Ws
pub mod Cors
