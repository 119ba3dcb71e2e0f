-- ===== src/AppAuth.antt =====
-- internal/appauth: the gate before the app that the daemon fronts.
pub mod Gate
pub mod GateLaws
pub mod Spoof
pub mod Tests
