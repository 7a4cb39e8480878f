-- ===== src/Mcp.antt =====
-- internal/mcpserver: bounded, read-only code queries for MCP clients.
pub mod Calls
pub mod Fit
pub mod Limits
pub mod Requests
pub mod Search
pub mod Outline
pub mod Source
pub mod Stdio
mod Tests
