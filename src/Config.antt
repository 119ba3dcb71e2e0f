-- ===== src/Config.antt =====
-- The daemon's configuration: defaults, overrides and validation.
pub mod Data
pub mod Defaults
pub mod DefaultsLaws
pub mod Validate
pub mod Valid
pub mod Again
mod Tests
