-- ===== src/Service/Handles.antt =====
-- The properties of `McpService` in platform_sdk/base/mcp_service.py that hand out its resources.
use ai_platform_sdk.Prelude.{◌≡◌, ◌≢◌, true, false, Option, none, arith}
use ai_platform_sdk.Service.{Resource, McpService, Startup, enter}

-- `none` is the `RuntimeError` for a resource that is not there.
abbrev pub authorizer_property : McpService → Option Resource
authorizer_property s = s.authorizer

abbrev pub cache_property : McpService → Option Resource
cache_property s = s.cache

abbrev pub db_pool_property : McpService → Option Resource
db_pool_property s = s.db_pool

-- While a service runs, its authorizer is at hand.
pub authorizer_available :
    (u : Startup) (s : McpService) → (enter u s).0 ≡ true → authorizer_property (enter u s).1 ≢ none
unfolding enter
authorizer_available u s entered absent = ground arith

-- So is the pool of a service that needs one.
pub db_pool_available :
    (u : Startup) (s : McpService)
    → (enter u s).0 ≡ true
    → s.requires_database ≡ true
    → db_pool_property (enter u s).1 ≢ none
unfolding enter
db_pool_available u s entered needed absent = ground arith

-- The cache is not, where none was injected and caching is disabled: the property raises.
pub cache_disabled :
    (u : Startup) (s : McpService)
    → s.cache ≡ none
    → s.enable_tool_cache ≡ false
    → cache_property (enter u s).1 ≡ none
unfolding enter
cache_disabled u s absent disabled = ground arith

-- Nor where no Redis server is configured.
pub cache_unconfigured :
    (u : Startup) (s : McpService)
    → s.cache ≡ none
    → u.tool_result_cache ≡ none
    → cache_property (enter u s).1 ≡ none
unfolding enter
cache_unconfigured u s absent unconfigured = ground arith
