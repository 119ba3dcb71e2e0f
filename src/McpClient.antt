-- ===== src/McpClient.antt =====
-- internal/mcpclient: the pool of clients, and the supervision of subprocesses.
pub mod Pool
pub mod Supervisor
mod Tests
