-- ===== src/Mcp.antt =====
-- platform_sdk/mcp_auth.py: the caller's context on the server's side.
pub mod Middleware
