-- ===== src/Mcp.antt =====
-- ida_mcp/zeromcp/mcp.py: the MCP server.
pub mod Annotation
pub mod Server
pub mod Access
pub mod Stats
pub mod Audit
pub mod Result
pub mod Call
pub mod Sessions
pub mod Host
pub mod Body
pub mod Post
pub mod Sse
pub mod Protocol
