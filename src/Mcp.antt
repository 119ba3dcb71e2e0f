-- ===== src/Mcp.antt =====
-- internal/api/mcp: the MCP server.
pub mod FactInspect
pub mod Server
pub mod Post
pub mod Effects
pub mod Orderly
pub mod Tests
