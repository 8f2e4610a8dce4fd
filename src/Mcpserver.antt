-- ===== src/Mcpserver.antt =====
-- internal/mcpserver: the MCP server's access control.
pub mod Denylist
