-- ===== src/Tools.antt =====
-- The decorators of the MCP tools: platform_sdk/authorized_tool.py and platform_sdk/cache.py.
pub mod Errors
pub mod Authorized
pub mod Cache
