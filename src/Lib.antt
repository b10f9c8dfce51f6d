-- ===== src/Lib.antt =====
-- A model of the ai-platform-sdk, the Python library that the agents and the MCP servers of the
-- platform share, and the theorems that make its core correct. Paths are those of the repository.
--
-- Parts and how they interact. A caller's identity is an `AgentContext` (platform_sdk/auth.py), which
-- travels signed in a header, is checked by a middleware (platform_sdk/mcp_auth.py) and decides which
-- rows and columns are visible. A tool (platform_sdk/authorized_tool.py) asks the policy engine
-- (platform_sdk/security.py) before it runs, and its answers are cached (platform_sdk/cache.py). The
-- policy client, the cache and the client of the service registry (platform_sdk/registry) each hold a
-- circuit breaker (platform_sdk/resilience.py). Agents reach the tools over bridges
-- (platform_sdk/mcp_bridge.py, bridge_health.py), compact their conversations
-- (platform_sdk/compaction.py) and fetch prompts (platform_sdk/prompt_manager.py). A service is
-- configured by platform_sdk/config/loader.py and holds its resources for a lifespan
-- (platform_sdk/base/mcp_service.py, and the older platform_sdk/mcp_server_base.py). It registers itself
-- (platform_sdk/base/application.py), calls others with the headers of platform_sdk/http.py, and an
-- agent (platform_sdk/fastapi_app/base.py) finds the services it depends on in the registry, connects a
-- bridge to each of them and describes its database to the model (platform_sdk/schema_introspection.py).
--
-- Files. Each says at its top which code it is about.
--   Prelude     shared names and lemmas; Prelude/Dict is `dict` with text keys, Prelude/Sorting `sorted`
--   Json        values of `json.loads` and `yaml.safe_load`
--   Resilience  `CircuitBreaker`; Resilience/History is its specification by the history of calls
--   Security    Security/Opa is `OpaClient.authorize`, Security/ApiKey the API key verifiers
--   Auth        `AgentContext`; Auth/Secrets the secrets, Auth/Token `_sign`, `_verify_and_split`,
--               `from_header`, `to_header_value`, `from_jwt`; the laws in Auth/Access, Auth/Rotation
--   Mcp         Mcp/Middleware is `AgentContextMiddleware.__call__` and `verify_auth_context`
--   Tools       Tools/Errors, Tools/Authorized (`authorized_tool`; with the policy client in
--               Tools/Authorized/Outage), Tools/Cache (`cached_tool`; the constructors of the
--               cache in Tools/Cache/Construction; its keys without the order of the arguments in
--               Tools/Cache/Order; around an authorized tool in Tools/Cache/Denied)
--   Registry    `RegistryClient.lookup` as `find`; Registry/Tasks the background tasks
--   Bridge      Bridge/Health is `BridgeHealthMatrix`; of `MCPToolBridge`, Bridge/Reconnect is the
--               backoff of `_reconnect_loop`, Bridge/Session its states with `connect` and
--               `disconnect`, Bridge/Identity `_build_auth_headers`, Bridge/Listing
--               `get_langchain_tools`, Bridge/Invoke `_make_invoke_fn`, Bridge/SessionId the context
--               variable of the session, Bridge/Schema `_convert_schema`
--   Config      Config/Merge `_deep_merge`, Config/Text `_substitute` on one text, Config/Load
--               `load_config` with its phases and the text of its error, Config/Models the validators of
--               the models
--   Models      `ToolResponse` of platform_sdk/models.py, and the answers of the servers in Models/Crm,
--               Models/Payments and Models/News; Models/Envelope and Models/Summaries are what is
--               written and read back, Models/Cached the envelope under `cached_tool`
--   Compaction  `TokenAwareCompactionModifier.apply` and `make_compaction_modifier`; Compaction/Budget
--               and Compaction/Limit its laws
--   Prompts     `PromptManager`; Prompts/Refinement its specification
--   Service     `McpService.lifespan` as `enter` and `exit`; Service/Handles the properties
--   Server      platform_sdk/mcp_server_base.py: Server/Lifespan what is opened and closed,
--               Server/Readiness the health router
--   Application  `_register` and `_deregister`; Application/Lifecycle their laws,
--               Application/Process `run_with_registration`, Application/Construction the `__init__` of
--               the application classes, with platform_sdk/base/agent.py
--   AgentApp    `BaseAgentApp`: the bridges, AgentApp/Origins `add_cors`, AgentApp/Lifespan its
--               lifespan, AgentApp/Creation `create_app`
--   Http        `make_internal_http_client`; Http/Isolation is it with the API key verifier
--   Cli         how platform_sdk/cli/main.py reads the files; Cli/Command is `check_env_example`,
--               Cli/Coverage it beside the loader; Cli/Templates the scaffolding
--   Agents      platform_sdk/agent.py and the factories of platform_sdk/services; Agents/Building what
--               they hand to LangGraph, Agents/Client platform_sdk/llm_client.py
--   Introspection  platform_sdk/schema_introspection.py: `_qident` and `_sample_enum_values`; in its
--               children the heuristics, the tables, the relationships file, the context and the prompt
--   Metrics     platform_sdk/metrics.py: Metrics/Totals what the instruments show, Metrics/Created how
--               often they are made
--   Telemetry   platform_sdk/telemetry.py
--   Logging     platform_sdk/logging.py
--   Testing     the personas of platform_sdk/testing and their tokens; Testing/Fakes the fakes
--   Tests       the theorems at concrete inputs
--
-- State is passed explicitly: an operation takes the object as a record and returns its answer with
-- the object after it. A clock is an argument wherever the code reads one, as a natural number in
-- seconds, and so is what comes back from the network. Exceptions are values. Python's `dict` is a list
-- of pairs in insertion order.
--
-- Parameters. Third-party code is an argument of the definitions that use it: HMAC, base64 and JSON are
-- the record `Codec` of Auth/Token and `JsonText` of Tools/Errors, Redis is a record of Tools/Cache,
-- PyJWT, `yaml.safe_load`, Pydantic, tiktoken, `trim_messages`, LangFuse and OpenTelemetry are functions or
-- the values that their calls give. What a theorem needs of them is a hypothesis that says what they document: a
-- digest is hexadecimal, an encoding reads back, a trim keeps the end of a conversation.
--
-- Bounds and fuel. `sub` of Config/Text takes a unit of fuel for every piece of the text, which is
-- enough because every round consumes one (`sub_enough`). `sleep_slices` of Bridge/Reconnect takes
-- sixty rounds, the cap of the delay. `resolve_type` of Bridge/Schema takes the depth of Python's
-- stack, and a recursion that is deeper is the exception that ends the conversion. The attempts of `authorize` are counted
-- down from the configured number.
--
-- Not modelled: the inside of the HTTP, Redis and LangFuse clients, and what is logged; the timing of the
-- background tasks and the thread of `run_with_registration`; the catalogue queries of the schema
-- introspection, whose rows are arguments; claims of a token that are of another type than the code
-- writes, which `from_claims` of Auth/Token gives as an error of its own; JSON that is nested deeper than
-- Python's stack; the inside of FastAPI, LangGraph and Jinja2, with
-- platform_sdk/prompts.py, which only hands on to it; the protocols, the lists
-- of exports, and the files under platform_sdk/cli/templates, which the scaffolding only copies.
pub mod Prelude
pub mod Json
pub mod Resilience
pub mod Security
pub mod Application
pub mod AgentApp
pub mod Agents
pub mod Cli
pub mod Metrics
pub mod Logging
pub mod Models
pub mod Telemetry
pub mod Testing
pub mod Http
pub mod Auth
pub mod Mcp
pub mod Tools
pub mod Registry
pub mod Bridge
pub mod Config
pub mod Compaction
pub mod Prompts
pub mod Server
pub mod Service
pub mod Introspection
mod Tests
