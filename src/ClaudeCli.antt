-- ===== src/ClaudeCli.antt =====
-- internal/driver/claudecli/claudecli.go: the driver that runs the `claude` command.
pub mod CapWriter
pub mod Stream
pub mod Run
mod Tail
mod Events
mod Outcome
mod Tests
