-- ===== src/Tests.antt =====
-- The theorems at concrete inputs, by part of the program.
mod AuthRuns
mod SecurityRuns
mod ToolRuns
mod RegistryRuns
mod BridgeRuns
mod CacheRuns
mod ConfigRuns
mod ServiceRuns
mod SchemaRuns
mod AgentRuns
mod TelemetryRuns
