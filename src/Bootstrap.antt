-- ===== src/Bootstrap.antt =====
-- internal/bootstrap/bootstrap.go: the token of the server and the first run, with what they read.
pub mod Token
pub mod Verdict
pub mod TailBuffer
pub mod FirstRun
mod Balance
mod Marked
mod Tests
