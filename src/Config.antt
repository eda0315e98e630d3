-- ===== src/Config.antt =====
-- src/config.rs: the collapse, the configuration and the ready-made 32-byte presets.
pub mod Scheme
pub mod Presets
pub mod Table
pub mod Grid
pub mod Resolve
pub mod Names
pub mod Checks
