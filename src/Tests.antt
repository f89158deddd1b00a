-- ===== src/Tests.antt =====
-- Concrete instances of the parameters, and the theorems at concrete inputs.
mod Codec
mod Instances
mod Samples
mod Limits
mod Tapes
mod Pages
mod Operations
mod Logins
mod Entry
mod Requests
mod Notices
mod Configs
mod Generation
mod Ticks
mod Overtaken
mod Lives
