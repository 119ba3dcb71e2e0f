-- ===== src/Report.antt =====
-- Reporting a finished run to the control plane.
pub mod Reporter
pub mod Retries
mod Tests
