-- ===== src/Front.antt =====
-- internal/api/mcp/server.go: the one HTTP front of the daemon, behind which are the MCP server, the
-- application and the two bridges.
pub mod Numbers
pub mod Bridge
pub mod Ready
pub mod App
mod Guard
mod Pages
mod Tests
