-- ===== src/Config.antt =====
-- src/config.rs: the settings of the program, their defaults and their checks.
pub mod State
pub mod Profile
pub mod Endpoints
pub mod Validate
pub mod Passed
pub mod Guarantees
pub mod Samples
pub mod Frames
mod Examples
