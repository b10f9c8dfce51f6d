-- ===== src/Bridge.antt =====
-- The MCP tool bridge: platform_sdk/mcp_bridge.py and platform_sdk/bridge_health.py.
pub mod SessionId
pub mod Health
pub mod Reconnect
pub mod Identity
pub mod Invoke
pub mod Listing
pub mod Schema
pub mod Session
