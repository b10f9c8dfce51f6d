-- ===== src/Config/Models.antt =====
-- The checks of the configuration models: platform_sdk/config/agent_config.py, mcp_config.py and
-- env_isolation.py. A record has the fields that are checked, with the types that Pydantic has
-- given them; a float that is only compared with zero is an integer in milliseconds.
pub mod Valid
use ai_platform_sdk.Prelude.{
  ℕ, min, max, String, Bool, true, false, not, ◌&&◌, ◌||◌, Option, none, some, List, [], ◌∷◌, leb,
  ltb, ◌==◌, contains, if◌then◌else◌,
}
use ai_platform_sdk.Prelude.Texts.{starts_with}

-- Python's integers.
pub data ℤ : Type 0 where
  pos : ℕ → ℤ
  negsuc : ℕ → ℤ

-- `Field(ge=n)`
abbrev pub at_least : ℕ → ℤ → Bool
at_least n (pos k) = leb n k
at_least n (negsuc k) = false

-- `Field(gt=0)`
abbrev pub positive : ℤ → Bool
positive (pos k) = ltb 0 k
positive (negsuc k) = false

-- `Field(le=n)`
abbrev pub at_most : ℕ → ℤ → Bool
at_most n (pos k) = leb k n
at_most n (negsuc k) = true

abbrev pub environments : List String
environments = "dev" ∷ "staging" ∷ "prod" ∷ []

pub record AgentConfig : Type 0 where
  pub environment : String
  pub model_route : String
  pub context_token_limit : ℤ
  pub recursion_limit : ℤ
  pub max_message_length : ℤ
  pub tool_cache_ttl_seconds : ℤ

-- `_clamp_recursion_limit`: `max(1, min(v, 50))`
unfoldable pub clamp_recursion_limit : ℤ → ℤ
clamp_recursion_limit (pos v) = pos (max 1 (min v 50))
clamp_recursion_limit (negsuc v) = pos 1

abbrev pub accepts : AgentConfig → Bool
accepts c =
    contains environments c.environment
    && not (c.model_route == "")
    && at_least 100 c.context_token_limit
    && at_least 100 c.max_message_length
    && at_least 0 c.tool_cache_ttl_seconds

abbrev pub clamped : AgentConfig → AgentConfig
clamped c = record c { recursion_limit = clamp_recursion_limit c.recursion_limit }

-- The validation of `AgentConfig`: `none` is a `ValidationError`.
unfoldable pub validate_agent : AgentConfig → Option AgentConfig
unfolding clamp_recursion_limit contains
validate_agent c = if accepts c then some (clamped c) else none

pub record McpConfig : Type 0 where
  pub environment : String
  pub opa_url : String
  pub opa_timeout : ℤ
  pub max_result_bytes : ℤ
  pub agent_role : String
  pub transport : String
  pub port : ℤ
  pub tool_cache_ttl_seconds : ℤ

abbrev pub valid_agent_roles : List String
valid_agent_roles =
    "commercial_banking_agent" ∷ "data_analyst_agent" ∷ "compliance_agent" ∷ "analytics_agent" ∷ []

abbrev pub transports : List String
transports = "stdio" ∷ "sse" ∷ []

-- `_validate_opa_url`
unfoldable pub is_opa_url : String → Bool
unfolding starts_with
is_opa_url v = not (v == "") && (starts_with "http://" v || starts_with "https://" v)

-- The validation of `MCPConfig`, which changes nothing.
unfoldable pub validate_mcp : McpConfig → Option McpConfig
unfolding is_opa_url contains
validate_mcp c =
    if contains environments c.environment
      && is_opa_url c.opa_url
      && positive c.opa_timeout
      && at_least 1000 c.max_result_bytes
      && contains valid_agent_roles c.agent_role
      && contains transports c.transport
      && positive c.port
      && at_most 65535 c.port
      && at_least 0 c.tool_cache_ttl_seconds
    then some c
    else none
